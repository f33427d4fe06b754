-- ===== src/Orchestrator/Refines/Sync.antt =====
-- The writes of `SyncOnce`.
use po_c_go_live.Base.{
  ℕ, Bool-cases, String, ◌≡◌, refl, ◌⊎◌, inl, inr, true, false, Option, none, some, List, [], ◌∷◌,
  arith, eq_iff,
}
use po_c_go_live.Dict.{Dict, get, put, del, IsDistinct, put-IsDistinct, get-put, get-del}
use po_c_go_live.Orchestrator.Models.{Camera, offline}
use po_c_go_live.Orchestrator.State.{Orch, Deps, Sys, ok, Result-cases}
use po_c_go_live.Orchestrator.Assignment.{Unassignment, silence, clear_camera_from_positions}
use po_c_go_live.Orchestrator.Sync.{
  Actions, see_stream, see_streams, take_offline, age_cameras, reconcile, remove_cameras,
  lose_media, silence_all, carry_out, sync_with, sync_once,
}
use po_c_go_live.Orchestrator.Step.{
  Steps, Steps-trans, still, one, here, online_at, hears, sees, loses, forgets,
}

-- The entries that the loop has still to visit are as the struct has them.
abbrev Agrees : Dict Camera → Orch → Type 0
Agrees [] o = Unit
Agrees ((id, c) ∷ m) o = (get id o.cameras ≡ some c) × Agrees m o

see_streams-Steps :
    {C : Type 0} (base : String) (now : ℕ) (names : List String) (o : Orch)
    → Steps C o (see_streams base now names o).1
unfolding see_streams
see_streams-Steps base now [] o = here
see_streams-Steps base now (name ∷ names) o =
    Steps-trans (one (sees base now name refl))
      (see_streams-Steps base now names (see_stream base now name o).1)

cameras-take_offline :
    (now : ℕ) (id : String) (c : Camera) (o : Orch)
    → (take_offline now id c o).1.cameras ≡ put id (record c { status = offline }) o.cameras
unfolding take_offline clear_camera_from_positions
cameras-take_offline now id c o = ground arith

Agrees-take_offline :
    (now : ℕ) (id : String) (c : Camera) (m : Dict Camera) (o : Orch)
    → get id m ≡ none
    → Agrees m o
    → Agrees m (take_offline now id c o).1
unfolding get
Agrees-take_offline now id c [] o n h = tt
Agrees-take_offline now id c ((j, x) ∷ m) o n h = ground (
  arith,
  eq_iff j id,
  eq_iff id j,
  cameras-take_offline now id c o,
  get-put id j (record c { status = offline }) o.cameras,
  Agrees-take_offline now id c m o,
)

age_cases :
    (now : ℕ) (seen : List String) (id : String) (c : Camera) (m : Dict Camera) (o : Orch)
    → let after = (age_cameras now seen ((id, c) ∷ m) o).1 in
      (after ≡ (age_cameras now seen m o).1)
      ⊎ (after ≡ (age_cameras now seen m (take_offline now id c o).1).1)
unfolding age_cameras
age_cases now seen id c m o = ground arith

age_cameras-Steps :
    {C : Type 0} (now : ℕ) (seen : List String) (m : Dict Camera) (o : Orch)
    → IsDistinct m
    → Agrees m o
    → Steps C o (age_cameras now seen m o).1
unfolding age_cameras
age_cameras-Steps now seen [] o d h = here
age_cameras-Steps now seen ((id, c) ∷ m) o d h = elim (age_cases now seen id c m o) [
  | inl e ↦ Steps-trans (age_cameras-Steps now seen m o d.1 h.1) (still e)
  | inr e ↦
      let o' = (take_offline now id c o).1 in
      let rest = age_cameras-Steps now seen m o' d.1 (Agrees-take_offline now id c m o d.0 h.1) in
      Steps-trans (one (loses now id c h.0 refl)) (Steps-trans rest (still e))
]

-- None of these cameras is online.
abbrev AllGone : List String → Orch → Type 0
AllGone [] o = Unit
AllGone (id ∷ ids) o = (online_at id o.cameras ≡ false) × AllGone ids o

gone-take_offline :
    (now : ℕ) (id j : String) (c : Camera) (o : Orch)
    → online_at j o.cameras ≡ false
    → online_at j (take_offline now id c o).1.cameras ≡ false
gone-take_offline now id j c o h =
    ground (
      arith,
      cameras-take_offline now id c o,
      get-put id j (record c { status = offline }) o.cameras,
    )

gone-age_cameras :
    (now : ℕ) (seen : List String) (m : Dict Camera) (j : String) (o : Orch)
    → online_at j o.cameras ≡ false
    → online_at j (age_cameras now seen m o).1.cameras ≡ false
unfolding age_cameras
gone-age_cameras now seen [] j o h = h
gone-age_cameras now seen ((id, c) ∷ m) j o h =
    let o' = (take_offline now id c o).1 in
    ground (
      arith,
      age_cases now seen id c m o,
      gone-age_cameras now seen m j o,
      gone-age_cameras now seen m j o',
      gone-take_offline now id j c o,
    )

age_cameras-AllGone :
    (now : ℕ) (seen : List String) (m : Dict Camera) (o : Orch)
    → IsDistinct m
    → Agrees m o
    → AllGone (age_cameras now seen m o).0.remove_ids (age_cameras now seen m o).1
unfolding age_cameras
age_cameras-AllGone now seen [] o d h = tt
age_cameras-AllGone now seen ((id, c) ∷ m) o d h = ground (
  arith,
  age_cameras-AllGone now seen m o d.1 h.1,
  age_cameras-AllGone now seen m (take_offline now id c o).1 d.1
      (Agrees-take_offline now id c m o d.0 h.1),
  gone-age_cameras now seen m id o,
)

AllGone-del :
    (id : String) (ids : List String) (o o' : Orch)
    → o' ≡ record o { cameras = del id o.cameras; offline_since = del id o.offline_since }
    → AllGone ids o
    → AllGone ids o'
AllGone-del id [] o o' e h = tt
AllGone-del id (j ∷ ids) o o' e h =
    ground (arith, get-del id j o.cameras, AllGone-del id ids o o' e h.1)

remove_cameras-Steps :
    {C : Type 0} (ids : List String) (o : Orch) → AllGone ids o → Steps C o (remove_cameras ids o)
unfolding remove_cameras
remove_cameras-Steps [] o h = here
remove_cameras-Steps (id ∷ ids) o h =
    Steps-trans (one (forgets id h.0 refl))
      (remove_cameras-Steps ids _ (AllGone-del id ids o _ refl h.1))

Agrees-of_get :
    (m : Dict Camera) (o : Orch)
    → IsDistinct m
    → ((id : String) (c : Camera) → get id m ≡ some c → get id o.cameras ≡ some c)
    → Agrees m o
unfolding get
Agrees-of_get [] o d h = tt
Agrees-of_get ((id, c) ∷ m) o d h = (
  h id c (ground (arith, eq_iff id id)),
  Agrees-of_get m o d.1 (λ j x g. h j x (ground (arith, eq_iff id j))),
)

see_streams-IsDistinct :
    (base : String) (now : ℕ) (names : List String) (o : Orch)
    → IsDistinct o.cameras
    → IsDistinct (see_streams base now names o).1.cameras
unfolding see_streams see_stream
see_streams-IsDistinct base now [] o d = d
see_streams-IsDistinct base now (name ∷ names) o d =
    see_streams-IsDistinct base now names (see_stream base now name o).1
      (grind (arith, put-IsDistinct))

-- The locked part, and that the cameras which it lists for removal are offline then.
reconcile-Steps :
    {C : Type 0} (base : String) (now : ℕ) (names : List String) (o : Orch)
    → IsDistinct o.cameras
    → Steps C o (reconcile base now names o).1
unfolding reconcile
reconcile-Steps base now names o d =
    let o₁ : Orch = record o { media_connected = true } in
    let o₂ = (see_streams base now names o₁).1 in
    let d₂ = see_streams-IsDistinct base now names o₁ d in
    Steps-trans (one (hears true refl)) (
      Steps-trans (see_streams-Steps base now names o₁) (
        age_cameras-Steps now names o₂.cameras o₂ d₂ (Agrees-of_get o₂.cameras o₂ d₂ (λ j c g. g))))

abbrev removable : String → ℕ → List String → Orch → List String
removable base now names o =
    let o₂ = (see_streams base now names (record o { media_connected = true })).1 in
    (age_cameras now names o₂.cameras o₂).0.remove_ids

reconcile-AllGone :
    (base : String) (now : ℕ) (names : List String) (o : Orch)
    → IsDistinct o.cameras
    → AllGone (removable base now names o) (reconcile base now names o).1
unfolding reconcile
reconcile-AllGone base now names o d =
    let o₁ : Orch = record o { media_connected = true } in
    let o₂ = (see_streams base now names o₁).1 in
    let d₂ = see_streams-IsDistinct base now names o₁ d in
    age_cameras-AllGone now names o₂.cameras o₂ d₂ (Agrees-of_get o₂.cameras o₂ d₂ (λ j c g. g))

module _ {W : Type 0} (d : Deps W) where
  silence_all_lem :
      (us : List Unassignment) (s : Sys W)
      → ((silence_all d us s).0 ≡ ok tt) × ((silence_all d us s).1.orch ≡ s.orch)
  unfolding silence_all silence
  silence_all_lem [] s = (refl, refl)
  silence_all_lem (u ∷ us) s = elim (Bool-cases u.was_audio) [
    | inl e ↦ rw e (silence_all_lem us _)
    | inr e ↦ rw e (silence_all_lem us _)
  ]

  carry_out_lem :
      (a : Actions) (s : Sys W) → (carry_out d a s).1.orch ≡ remove_cameras a.remove_ids s.orch
  unfolding carry_out
  carry_out_lem a s = ground (arith, silence_all_lem a.offline_unassign s)

  answered-Steps :
      {C : Type 0} (names : List String) (s : Sys W)
      → IsDistinct s.orch.cameras
      → Steps C s.orch (sync_with d (some names) s).1.orch
  unfolding sync_with reconcile
  answered-Steps names s m =
      let base = d.media_source_base_url in
      let now = (d.now s.world).0 in
      Steps-trans (reconcile-Steps base now names s.orch m) (
        Steps-trans (remove_cameras-Steps _ _ (reconcile-AllGone base now names s.orch m))
          (still (carry_out_lem _ _)))

  unanswered : (s : Sys W) → (sync_with d none s).1.orch ≡ record s.orch { media_connected = false }
  unfolding sync_with lose_media
  unanswered s = ground arith

  sync_with-Steps :
      {C : Type 0} (streams : Option (List String)) (s : Sys W)
      → IsDistinct s.orch.cameras
      → Steps C s.orch (sync_with d streams s).1.orch
  sync_with-Steps none s m = one (hears false (unanswered s))
  sync_with-Steps (some names) s m = answered-Steps names s m

  pub sync_once-Steps :
      {C : Type 0} (s : Sys W) → IsDistinct s.orch.cameras → Steps C s.orch (sync_once d s).1.orch
  unfolding sync_once
  sync_once-Steps s m =
      let (streams, w) = d.list_active_streams s.world in
      let s' : Sys W = record s { world = w } in
      elim (Result-cases (sync_with d streams s').0) [
        | inl (u, h) ↦ rw h (sync_with-Steps streams s' m)
        | inr (e, h) ↦ rw h (sync_with-Steps streams s' m)
      ]
