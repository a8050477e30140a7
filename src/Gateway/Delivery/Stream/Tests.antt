-- ===== src/Gateway/Delivery/Stream/Tests.antt =====
-- A long text on a channel that streams, and that fails to update its draft.
use frankclaw.Prelude.{
  ℕ, ◌≡◌, refl, Bool, true, none, some, List, [], ◌∷◌, ◌++◌, replicate, nat_eqb,
}
use frankclaw.Core.Error.{ok, err, auth_failed}
use frankclaw.Gateway.Delivery.Message.{no_attachments}
use frankclaw.Gateway.Delivery.Split.{is_nil, take, trim, trim_start, trim_end}
use frankclaw.Gateway.Delivery.Send.{rate_limited}
use frankclaw.Gateway.Delivery.Stream.{
  Channel, should_pseudo_stream, pseudo_stream_steps, preview_slice, inner_steps, send_chunk,
  send_streamed_chunk, update_stream, end_stream,
}

abbrev is_space : ℕ → Bool
is_space = nat_eqb 32

abbrev long_text : List ℕ
long_text = replicate 99 97 ++ 32 ∷ replicate 99 97 ++ 32 ∷ replicate 60 97

abbrev channel : Channel
channel = record {
  streaming = true;
  edit = true;
  send = λ n. ok (rate_limited none);
  stream_start = λ n. ok "draft";
  stream_update = λ n. err auth_failed;
  stream_end = λ n. ok tt;
}

three_steps :
    pseudo_stream_steps is_space long_text
    ≡ replicate 99 97 ∷ (replicate 99 97 ++ 32 ∷ replicate 99 97) ∷ long_text ∷ []
unfolding pseudo_stream_steps preview_slice trim trim_start trim_end is_nil take
three_steps = refl

streamed :
    send_chunk is_space channel "telegram"
      (record { text = long_text; attachments = []; reply_to = none })
      0
    ≡ some (record {
      result = ok (record {
        text = long_text;
        status = "sent";
        platform_message_id = some "draft";
        attempts = 1;
        retry_after_secs = none;
        error = none;
      });
      next = 3;
      slept = [];
    })
unfolding send_chunk should_pseudo_stream send_streamed_chunk pseudo_stream_steps preview_slice
    inner_steps update_stream end_stream trim trim_start trim_end is_nil take no_attachments
streamed = refl
