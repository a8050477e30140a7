-- ===== src/Gateway/Pairing/Approval.antt =====
-- Who is approved in the store of crates/frankclaw-gateway/src/pairing.rs.
use frankclaw.Prelude.{
  ℕ, ◌≡◌, ◌↔◌, ◌⊎◌, inl, inr, refl, ap, ◌∙◌, String, Bool, true, ◌||◌, ◌&&◌, Option, none, some,
  Option-cases, Bool-cases, List, [], ◌∷◌, ◌++◌, ◌==◌, ==_iff, ==_refl, string_eq, any, find,
  lookup, lookup-insert, arith,
}
use frankclaw.Core.Error.{Result}
use frankclaw.Gateway.Pairing.{
  PendingPairing, PairingState, approval_key, has_sender, is_approved, is_requested, is_from,
  take_first, add_sender, grant, approve, ensure_pending,
}

take_first-none :
    (test : PendingPairing → Bool) (ps : List PendingPairing)
    → find test ps ≡ none
    → take_first test ps ≡ none
unfolding take_first
take_first-none test [] h = refl
take_first-none test (p ∷ ps) h = ground (arith, take_first-none test ps)

take_first-some :
    (test : PendingPairing → Bool) (ps : List PendingPairing) (q : PendingPairing)
    → find test ps ≡ some q
    → (others : List PendingPairing) × (take_first test ps ≡ some (q, others))
unfolding take_first
take_first-some test [] q h = cc
take_first-some test (p ∷ ps) q h = elim (Bool-cases (test p)) [
  | inl hit ↦ (ps, ground arith)
  | inr miss ↦
      let (others, rest) = take_first-some test ps q (ground arith) in (p ∷ others, rw (miss, rest))
]

has_sender-add_sender :
    (x y : String) (o : Option (List String))
    → has_sender x (some (add_sender y o)) ≡ ((y == x) || has_sender x o)
unfolding has_sender add_sender
has_sender-add_sender x y none = ground arith
has_sender-add_sender x y (some senders) = elim (Bool-cases (y == x)) [
  | inl same ↦
      let path : y ≡ x = (==_iff y x).0 same in
      let agree : any (λ s. s == y) senders ≡ any (λ s. s == x) senders =
        ap {A = String} (λ z. any (λ s. s == z) senders) path in
      ground (arith, agree)
  | inr other ↦ ground arith
]

approved-grant :
    (p : PendingPairing) (s : PairingState) (others : List PendingPairing)
    (channel account_id x : String)
    → is_approved (record { approved = grant p s.approved; pending = others }) channel account_id x
      ≡ (((approval_key p.channel p.account_id == approval_key channel account_id)
            && (p.sender_id == x))
          || is_approved s channel account_id x)
unfolding is_approved grant
approved-grant p s others channel account_id x =
    let key = approval_key p.channel p.account_id in
    let asked = approval_key channel account_id in
    let added = has_sender-add_sender x p.sender_id (lookup key s.approved) in
    let found =
      lookup-insert key asked (add_sender p.sender_id (lookup key s.approved)) s.approved in
    elim (Bool-cases (key == asked)) [
      | inl same ↦
          let path : key ≡ asked = (==_iff key asked).0 same in
          let old : lookup key s.approved ≡ lookup asked s.approved =
            ap (λ k. lookup k s.approved) path in
          rw (found, same) (added ∙ rw old)
      | inr other ↦ rw (found, other)
    ]

-- `approve` finds a pairing with the code, and with the channel and account if they are given.
abbrev pub Finds : Option String → Option String → String → PairingState → PendingPairing → Type 0
Finds channel account_id code s p = find (is_requested channel account_id code) s.pending ≡ some p

approve-absent :
    (channel account_id : Option String) (code : String) (saved : Result (Unit {0}))
    (s : PairingState)
    → find (is_requested channel account_id code) s.pending ≡ none
    → (approve channel account_id code saved s).1 ≡ s
unfolding approve
approve-absent channel account_id code saved s h =
    rw (take_first-none (is_requested channel account_id code) s.pending h, approve)

approve-found :
    (channel account_id : Option String) (code : String) (saved : Result (Unit {0}))
    (s : PairingState) (p : PendingPairing)
    → Finds channel account_id code s p
    → (others : List PendingPairing) × ((approve channel account_id code saved s).1
        ≡ record { approved = grant p s.approved; pending = others })
unfolding approve
approve-found channel account_id code saved s p h =
    let (others, taken) = take_first-some (is_requested channel account_id code) s.pending p h in
    (others, rw (taken, approve))

-- An approval grants to one sender and to no other: afterwards a sender is approved for a channel and
-- an account exactly when it was before, or the first pending pairing that `approve` looks for is of
-- that sender and its approval key is that of the channel and the account. Whether the file was saved
-- does not matter.
pub is_approved-approve :
    (by_channel by_account : Option String) (code : String) (saved : Result (Unit {0}))
    (s : PairingState) (channel account_id sender_id : String)
    → (is_approved (approve by_channel by_account code saved s).1 channel account_id sender_id
        ≡ true)
      ↔ ((is_approved s channel account_id sender_id ≡ true)
          ⊎ ((p : PendingPairing) × Finds by_channel by_account code s p
              × (approval_key p.channel p.account_id ≡ approval_key channel account_id)
              × (p.sender_id ≡ sender_id)))
is_approved-approve by_channel by_account code saved s channel account_id sender_id =
    elim (Option-cases (find (is_requested by_channel by_account code) s.pending)) [
      | inl absent ↦
          rw (approve-absent by_channel by_account code saved s absent)
            (inl, λ h. elim h [ inl old ↦ old | inr (p, found, _, _) ↦ ground arith ])
      | inr (p, found) ↦
          let (others, after) = approve-found by_channel by_account code saved s p found in
          let granted = approved-grant p s others channel account_id sender_id in
          let keys =
            ==_iff (approval_key p.channel p.account_id) (approval_key channel account_id) in
          let senders = ==_iff p.sender_id sender_id in
          let was = Bool-cases (is_approved s channel account_id sender_id) in
          rw (after, granted)
            (
              λ h. elim was [
                | inl old ↦ inl old
                | inr fresh ↦ inr (p, found, keys.0 (ground arith), senders.0 (ground arith))
              ],
              λ h. elim h [
                | inl old ↦ ground arith
                | inr (q, found_q, key, sender) ↦
                    let same : q ≡ p = cc in
                    let key_p = keys.1 (rw same at key) in
                    let sender_p = senders.1 (rw same at sender) in ground (arith, key_p, sender_p)
              ],
            )
    ]

find-append_new :
    (test : PendingPairing → Bool) (ps : List PendingPairing) (q : PendingPairing)
    → find test ps ≡ none
    → test q ≡ true
    → find test (ps ++ q ∷ []) ≡ some q
find-append_new test [] q h t = rw t
find-append_new test (p ∷ ps) q h t = ground (arith, find-append_new test ps q)

ensure_pending-found :
    (channel account_id sender_id code : String) (now : ℕ) (saved : Result (Unit {0}))
    (s : PairingState) (p : PendingPairing)
    → find (is_from channel account_id sender_id) s.pending ≡ some p
    → (ensure_pending channel account_id sender_id code now saved s).1 ≡ s
unfolding ensure_pending
ensure_pending-found channel account_id sender_id code now saved s p found =
    rw (found, ensure_pending)

ensure_pending-absent :
    (channel account_id sender_id code : String) (now : ℕ) (saved : Result (Unit {0}))
    (s : PairingState)
    → find (is_from channel account_id sender_id) s.pending ≡ none
    → (p : PendingPairing) × (is_from channel account_id sender_id p ≡ true)
      × ((ensure_pending channel account_id sender_id code now saved s).1
          ≡ record s { pending = s.pending ++ p ∷ [] })
unfolding ensure_pending is_from
ensure_pending-absent channel account_id sender_id code now saved s absent = (
  record {
    channel = channel;
    account_id = account_id;
    sender_id = sender_id;
    code = code;
    created_at = now;
  },
  ground (arith, ==_refl channel, ==_refl account_id, ==_refl sender_id),
  rw (absent, ensure_pending),
)

-- Asking again for a pending pairing makes no second one: the store stays as the first call left it,
-- whether that call found the pairing or made it, and whether or not the file was saved.
ensure_pending-again :
    (channel account_id sender_id code code' : String) (now now' : ℕ)
    (saved saved' : Result (Unit {0})) (s : PairingState)
    → let after = (ensure_pending channel account_id sender_id code now saved s).1 in
      (ensure_pending channel account_id sender_id code' now' saved' after).1 ≡ after
ensure_pending-again channel account_id sender_id code code' now now' saved saved' s =
    elim (Option-cases (find (is_from channel account_id sender_id) s.pending)) [
      | inl absent ↦
          let (p, from, made) =
            ensure_pending-absent channel account_id sender_id code now saved s absent in
          let there =
            find-append_new (is_from channel account_id sender_id) s.pending p absent from in
          rw made (ensure_pending-found channel account_id sender_id code' now' saved' _ p there)
      | inr (p, found) ↦
          rw (ensure_pending-found channel account_id sender_id code now saved s p found)
            (ensure_pending-found channel account_id sender_id code' now' saved' s p found)
    ]
