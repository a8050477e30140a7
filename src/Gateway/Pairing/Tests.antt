-- ===== src/Gateway/Pairing/Tests.antt =====
-- Two senders ask for a pairing, and one is approved by its code.
use frankclaw.Prelude.{◌≡◌, ◌↔◌, ◌⊎◌, refl, true, false, none, some, [], lookup, insert}
use frankclaw.Core.Error.{ok}
use frankclaw.Gateway.Pairing.{
  PendingPairing, PairingState, approval_key, is_approved, ensure_pending, approve, is_requested,
}
use frankclaw.Gateway.Pairing.Approval.{Finds, is_approved-approve}

abbrev empty : PairingState
empty = record { approved = []; pending = [] }

abbrev asked : PairingState
asked =
    (ensure_pending "web" "main" "bob" "K7Q2ZZ" 2 (ok tt)
      (ensure_pending "web" "main" "alice" "A2B3C4" 1 (ok tt) empty).1).1

bob_approved :
    (is_approved (approve none none "K7Q2ZZ" (ok tt) asked).1 "web" "main" "bob" ≡ true)
    × (is_approved (approve none none "K7Q2ZZ" (ok tt) asked).1 "web" "main" "alice" ≡ false)
unfolding is_approved approve ensure_pending approval_key is_requested lookup insert
bob_approved = (refl, refl)

is_approved-approve_example :
    (is_approved (approve none (some "main") "K7Q2ZZ" (ok tt) asked).1 "web" "main" "bob" ≡ true)
    ↔ ((is_approved asked "web" "main" "bob" ≡ true)
        ⊎ ((p : PendingPairing) × Finds none (some "main") "K7Q2ZZ" asked p
            × (approval_key p.channel p.account_id ≡ approval_key "web" "main")
            × (p.sender_id ≡ "bob")))
is_approved-approve_example =
    is_approved-approve none (some "main") "K7Q2ZZ" (ok tt) asked "web" "main" "bob"
