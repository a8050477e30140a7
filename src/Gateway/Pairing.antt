-- ===== src/Gateway/Pairing.antt =====
-- crates/frankclaw-gateway/src/pairing.rs. Each method is one step under the mutex. The file behind
-- the store is left out: `saved` is what `save_state` returns. The code that `generate_code` draws and
-- the time of creation are arguments.
pub mod Approval
mod Tests
use Prim.Native.String
use frankclaw.Prelude.{
  ℕ, String, Bool, true, false, Option, none, some, List, [], ◌∷◌, ◌++◌, ◌&&◌, ◌==◌, string_eq, any,
  find, filter, Map, lookup, insert, if◌then◌else◌,
}
use frankclaw.Core.Error.{FrankClawError, Result, ok, err, config_validation}

pub record PendingPairing : Type 0 where
  pub channel : String
  pub account_id : String
  pub sender_id : String
  pub code : String
  pub created_at : ℕ

-- A `HashSet` of senders is a list.
pub record PairingState : Type 0 where
  pub approved : Map String (List String)
  pub pending : List PendingPairing

unfoldable pub approval_key : String → String → String
approval_key channel account_id = String.◌++◌ channel (String.◌++◌ ":" account_id)

-- `contains` of a set.
pub has_sender : String → Option (List String) → Bool
has_sender sender_id none = false
has_sender sender_id (some senders) = any (λ s. s == sender_id) senders

unfoldable pub is_approved : PairingState → String → String → String → Bool
unfolding has_sender
is_approved s channel account_id sender_id =
    has_sender sender_id (lookup (approval_key channel account_id) s.approved)

-- The test of `ensure_pending`.
pub is_from : String → String → String → PendingPairing → Bool
is_from channel account_id sender_id pending =
    (pending.channel == channel)
    && (pending.account_id == account_id)
    && (pending.sender_id == sender_id)

-- The return after `save_state`.
after_save : Result (Unit {0}) → PendingPairing → Result PendingPairing
after_save (ok u) pending = ok pending
after_save (err e) pending = err e

unfoldable pub ensure_pending :
    String
    → String
    → String
    → String
    → ℕ
    → Result (Unit {0})
    → PairingState
    → Result PendingPairing × PairingState
unfolding is_from after_save
ensure_pending channel account_id sender_id code now saved s =
    elim (find (is_from channel account_id sender_id) s.pending) [
      | some existing ↦ (ok existing, s)
      | none ↦
          let pending : PendingPairing = record {
            channel = channel;
            account_id = account_id;
            sender_id = sender_id;
            code = code;
            created_at = now;
          } in
          (after_save saved pending, record s { pending = s.pending ++ pending ∷ [] })
    ]

-- `map(|value| value == field).unwrap_or(true)`.
matches_filter : Option String → String → Bool
matches_filter none field = true
matches_filter (some value) field = value == field

unfoldable pub list_pending : Option String → PairingState → List PendingPairing
unfolding matches_filter
list_pending channel s = filter (λ p. matches_filter channel p.channel) s.pending

-- The test of `approve`.
unfoldable pub is_requested : Option String → Option String → String → PendingPairing → Bool
unfolding matches_filter
is_requested channel account_id code pending =
    (pending.code == code)
    && matches_filter channel pending.channel
    && matches_filter account_id pending.account_id

-- `position` and `remove`: the first pairing that passes, and the others.
take_first :
    (PendingPairing → Bool) → List PendingPairing → Option (PendingPairing × List PendingPairing)
take_first test [] = none
take_first test (p ∷ ps) =
    let rest = take_first test ps in
    if test p
    then some (p, ps)
    else elim rest [ none ↦ none | some (found, others) ↦ some (found, p ∷ others) ]

-- `insert` into a set.
add_sender : String → Option (List String) → List String
add_sender sender_id none = sender_id ∷ []
add_sender sender_id (some senders) =
    if any (λ s. s == sender_id) senders then senders else sender_id ∷ senders

-- `entry(key).or_default().insert(sender_id)`.
grant : PendingPairing → Map String (List String) → Map String (List String)
unfolding add_sender
grant p approved =
    let key = approval_key p.channel p.account_id in
    insert key (add_sender p.sender_id (lookup key approved)) approved

unfoldable pub approve :
    Option String
    → Option String
    → String
    → Result (Unit {0})
    → PairingState
    → Result PendingPairing × PairingState
unfolding take_first grant after_save
approve channel account_id code saved s =
    elim (take_first (is_requested channel account_id code) s.pending) [
      | none ↦ (
        err (
            config_validation
              (String.◌++◌ "no pending pairing found for code '" (String.◌++◌ code "'"))),
        s,
      )
      | some (pending, others) ↦ (
        after_save saved pending,
        record { approved = grant pending s.approved; pending = others },
      )
    ]
