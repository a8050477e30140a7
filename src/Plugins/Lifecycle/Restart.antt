-- ===== src/Plugins/Lifecycle/Restart.antt =====
-- A manager after a restart.
use frankclaw.Prelude.{
  ◌≡◌, ◌∙◌, refl, ap, Bool, true, false, some, List, [], ◌∷◌, String, Map, lookup, insert, modify,
  lookup-insert, Eq, string_eq, ◌==◌, if◌then◌else◌, Everywhere, All, All-imp, Bool-cases,
  Option-cases, ==_refl, inl, inr, Everywhere-empty, Everywhere-insert, is_some, arith,
}
use frankclaw.Plugins.Lifecycle.{
  DiscoveredPlugin, PluginState, PluginRecord, PluginManager, enabled_in, record_of, insert_all,
  new, enable, disable, set_enabled, export_state,
}

pub data Op : Type 0 where
  enabling disabling : String → Op

abbrev pub step : Op → PluginManager → PluginManager
step (enabling id) m = (enable id m).1
step (disabling id) m = (disable id m).1

abbrev pub run : List Op → PluginManager → PluginManager
run [] m = m
run (op ∷ ops) m = run ops (step op m)

module _ {K V : Type 0} ⦃e : Eq K⦄ where
  modify-insert :
      (j k : K) (f : V → V) (v : V) (m : Map K V)
      → modify j f (insert k v m) ≡ insert k (if j == k then f v else v) (modify j f m)
  unfolding modify insert
  modify-insert j k f v [] = ground (arith, e.same_iff j k, e.same_iff k j)
  modify-insert j k f v ((i, w) ∷ m) =
      ground (arith, modify-insert j k f v m, e.same_iff i j, e.same_iff i k, e.same_iff j k)

enabled_in-insert :
    (state : Map String PluginState) (id j : String) (s : PluginState)
    → enabled_in (insert id s state) j ≡ (if id == j then s.enabled else enabled_in state j)
unfolding enabled_in
enabled_in-insert state id j s = elim (Bool-cases (id == j)) [
  | inl same ↦ rw (lookup-insert id j s state, same, enabled_in) refl
  | inr other ↦ rw (lookup-insert id j s state, other, enabled_in) refl
]

set_record :
    (state : Map String PluginState) (id : String) (flag : Bool) (dp : DiscoveredPlugin)
    → (if id == dp.manifest.id then set_enabled flag (record_of state dp) else record_of state dp)
      ≡ record_of (insert id (record { enabled = flag }) state) dp
set_record state id flag dp = elim (Bool-cases (id == dp.manifest.id)) [
  | inl same ↦ rw (enabled_in-insert state id dp.manifest.id (record { enabled = flag }), same) refl
  | inr other ↦
      rw (enabled_in-insert state id dp.manifest.id (record { enabled = flag }), other) refl
]

-- Setting a plugin is setting its persisted state.
modify-insert_all :
    (state : Map String PluginState) (id : String) (flag : Bool) (m : PluginManager)
    (dps : List DiscoveredPlugin)
    → modify id (set_enabled flag) (insert_all state m dps)
      ≡ insert_all
          (insert id (record { enabled = flag }) state)
          (modify id (set_enabled flag) m)
          dps
unfolding insert_all
modify-insert_all state id flag m [] = refl
modify-insert_all state id flag m (dp ∷ dps) =
    let state' = insert id (record { enabled = flag }) state in
    modify-insert_all state id flag (insert dp.manifest.id (record_of state dp) m) dps
    ∙ ap (λ m'. insert_all state' m' dps)
        (modify-insert id dp.manifest.id (set_enabled flag) (record_of state dp) m
          ∙ ap (λ r. insert dp.manifest.id r (modify id (set_enabled flag) m))
              (set_record state id flag dp))

-- The states matter only at the ids that were discovered.
insert_all-same :
    (state state' : Map String PluginState) (m : PluginManager) (dps : List DiscoveredPlugin)
    → All (λ dp. enabled_in state dp.manifest.id ≡ enabled_in state' dp.manifest.id) dps
    → insert_all state m dps ≡ insert_all state' m dps
unfolding insert_all
insert_all-same state state' m [] h = refl
insert_all-same state state' m (dp ∷ dps) h =
    rw (h.0) (insert_all-same state state' (insert dp.manifest.id (record_of state' dp) m) dps h.1)

Agrees : Map String PluginState → PluginManager → Type 0
Agrees state = Everywhere (λ k r. r.enabled ≡ enabled_in state k)

insert_all-Agrees :
    (state : Map String PluginState) (m : PluginManager) (dps : List DiscoveredPlugin)
    → Agrees state m
    → Agrees state (insert_all state m dps)
unfolding insert_all Agrees
insert_all-Agrees state m [] h = h
insert_all-Agrees state m (dp ∷ dps) h =
    insert_all-Agrees state (insert dp.manifest.id (record_of state dp) m) dps (
      Everywhere-insert (λ k r. r.enabled ≡ enabled_in state k) dp.manifest.id (record_of state dp)
        m refl h)

insert_all_present :
    (state : Map String PluginState) (id : String) (m : PluginManager) (dps : List DiscoveredPlugin)
    → is_some (lookup id m) ≡ true
    → is_some (lookup id (insert_all state m dps)) ≡ true
unfolding insert_all
insert_all_present state id m [] h = h
insert_all_present state id m (dp ∷ dps) h =
    insert_all_present state id (insert dp.manifest.id (record_of state dp) m) dps
      (ground (arith, lookup-insert dp.manifest.id id (record_of state dp) m))

every_present :
    (state : Map String PluginState) (m : PluginManager) (dps : List DiscoveredPlugin)
    → All (λ dp. is_some (lookup dp.manifest.id (insert_all state m dps)) ≡ true) dps
unfolding insert_all
every_present state m [] = tt
every_present state m (dp ∷ dps) =
    let m' = insert dp.manifest.id (record_of state dp) m in
    (
      insert_all_present state dp.manifest.id m' dps (
          ground (
            arith,
            lookup-insert dp.manifest.id dp.manifest.id (record_of state dp) m,
            ==_refl dp.manifest.id,
          )),
      every_present state m' dps,
    )

enabled_in-export_state :
    (id : String) (r : PluginRecord) (m : PluginManager)
    → lookup id m ≡ some r
    → enabled_in (export_state m) id ≡ r.enabled
unfolding enabled_in export_state lookup
enabled_in-export_state id r [] h = cc
enabled_in-export_state id r ((k, held) ∷ m) h = elim (Bool-cases (k == id)) [
  | inl same ↦ let whole : held ≡ r = ground arith in rw (same, whole, enabled_in, lookup) refl
  | inr other ↦ rw (other, enabled_in, lookup) (enabled_in-export_state id r m (ground arith))
]

export_state-Agrees :
    (state : Map String PluginState) (m : PluginManager) (id : String)
    → Agrees state m
    → is_some (lookup id m) ≡ true
    → enabled_in (export_state m) id ≡ enabled_in state id
unfolding Agrees
export_state-Agrees state m id h there = elim (Option-cases (lookup id m)) [
  | inl absent ↦ absurd (ground arith)
  | inr (r, present) ↦ enabled_in-export_state id r m present ∙ h.at_key id r present
]

new-export_state :
    (discovered : List DiscoveredPlugin) (state : Map String PluginState)
    → new discovered (export_state (new discovered state)) ≡ new discovered state
unfolding new Agrees
new-export_state discovered state =
    let m = insert_all state [] discovered in
    let agrees =
      insert_all-Agrees state [] discovered
        (Everywhere-empty (λ k r. r.enabled ≡ enabled_in state k)) in
    insert_all-same (export_state m) state [] discovered (
      All-imp (λ dp there. export_state-Agrees state m dp.manifest.id agrees there) discovered
        (every_present state [] discovered))

step-new :
    (op : Op) (discovered : List DiscoveredPlugin) (state : Map String PluginState)
    → (state' : Map String PluginState) × (step op (new discovered state) ≡ new discovered state')
unfolding new enable disable modify
step-new (enabling id) discovered state = (_, modify-insert_all state id true [] discovered)
step-new (disabling id) discovered state = (_, modify-insert_all state id false [] discovered)

run-new :
    (ops : List Op) (discovered : List DiscoveredPlugin) (state : Map String PluginState)
    → (state' : Map String PluginState) × (run ops (new discovered state) ≡ new discovered state')
run-new [] discovered state = (state, refl)
run-new (op ∷ ops) discovered state =
    let (state', once) = step-new op discovered state in
    let (last, rest) = run-new ops discovered state' in (last, ap (run ops) once ∙ rest)

-- After any calls of `enable` and `disable`, a manager that is made anew of the same plugins and of the
-- exported state is the same as before.
pub new-run :
    (discovered : List DiscoveredPlugin) (state : Map String PluginState) (ops : List Op)
    → new discovered (export_state (run ops (new discovered state)))
      ≡ run ops (new discovered state)
new-run discovered state ops =
    let (last, same) = run-new ops discovered state in rw same (new-export_state discovered last)
