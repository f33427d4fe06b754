-- ===== src/Orchestrator/Quiet.antt =====
-- Methods that write the struct only by steps, and leave the cameras and the scenes alone.
use po_c_go_live.Base.{Bool, true, false, String, ◌≡◌, refl, ◌∙◌, List, [], ◌∷◌}
use po_c_go_live.Obs.{Fault, Call}
use po_c_go_live.Orchestrator.Models.{Err, Event}
use po_c_go_live.Orchestrator.State.{
  read, Orch, publish_event, run_if, ignore_error, Deps, Sys, Result, ok, err, M, pure, fail,
  continue, ◌>>=◌, settle, on_error, call, attempt,
}
use po_c_go_live.Orchestrator.Queries.{persist_scenes}
use po_c_go_live.Orchestrator.Visibility.{set_each, apply_exclusive_visibility}
use po_c_go_live.Orchestrator.Step.{Steps, here, Steps-trans}

pub record IsQuiet {W A : Type 0} (C : Type 0) (m : M W A) : Type 0 where
  pub steps : (s : Sys W) → Steps C s.orch (m s).1.orch
  pub cameras : (s : Sys W) → (m s).1.orch.cameras ≡ s.orch.cameras
  pub scenes : (s : Sys W) → (m s).1.orch.scenes ≡ s.orch.scenes

module _ {W : Type 0} where
  pub IsQuiet-call : {C : Type 0} (c : Call W) (e : Fault → Err) → IsQuiet C (call c e)
  IsQuiet-call c e = record { steps = λ s. here; cameras = λ s. refl; scenes = λ s. refl }

  pub IsQuiet-attempt : {C : Type 0} (c : Call W) → IsQuiet C (attempt c)
  IsQuiet-attempt c = record { steps = λ s. here; cameras = λ s. refl; scenes = λ s. refl }

module _ {W A : Type 0} where
  pub IsQuiet-read : {C : Type 0} (f : Orch → A) → IsQuiet C (read {W = W} f)
  IsQuiet-read f = record { steps = λ s. here; cameras = λ s. refl; scenes = λ s. refl }

  pub IsQuiet-pure : {C : Type 0} (a : A) → IsQuiet C (pure {W = W} a)
  IsQuiet-pure a = record { steps = λ s. here; cameras = λ s. refl; scenes = λ s. refl }

  pub IsQuiet-fail : {C : Type 0} (e : Err) → IsQuiet C (fail {W = W} {A = A} e)
  IsQuiet-fail e = record { steps = λ s. here; cameras = λ s. refl; scenes = λ s. refl }

  settle-IsQuiet :
      {C : Type 0} (r : Result A) (h : Err → M W A)
      → ((e : Err) → IsQuiet C (h e))
      → IsQuiet C (settle r h)
  settle-IsQuiet (ok a) h q = IsQuiet-pure a
  settle-IsQuiet (err e) h q = q e

  pub IsQuiet-on_error :
      {C : Type 0} (m : M W A) (h : Err → M W A)
      → IsQuiet C m
      → ((e : Err) → IsQuiet C (h e))
      → IsQuiet C (on_error m h)
  IsQuiet-on_error m h q k = record {
    steps = λ s. Steps-trans (q.steps s) ((settle-IsQuiet (m s).0 h k).steps (m s).1);
    cameras = λ s. (settle-IsQuiet (m s).0 h k).cameras (m s).1 ∙ q.cameras s;
    scenes = λ s. (settle-IsQuiet (m s).0 h k).scenes (m s).1 ∙ q.scenes s;
  }

module _ {W A B : Type 0} where
  continue-IsQuiet :
      {C : Type 0} (r : Result A) (f : A → M W B)
      → ((a : A) → IsQuiet C (f a))
      → IsQuiet C (continue r f)
  continue-IsQuiet (ok a) f k = k a
  continue-IsQuiet (err e) f k = IsQuiet-fail e

  pub IsQuiet-bind :
      {C : Type 0} (m : M W A) (f : A → M W B)
      → IsQuiet C m
      → ((a : A) → IsQuiet C (f a))
      → IsQuiet C (m >>= f)
  IsQuiet-bind m f q k = record {
    steps = λ s. Steps-trans (q.steps s) ((continue-IsQuiet (m s).0 f k).steps (m s).1);
    cameras = λ s. (continue-IsQuiet (m s).0 f k).cameras (m s).1 ∙ q.cameras s;
    scenes = λ s. (continue-IsQuiet (m s).0 f k).scenes (m s).1 ∙ q.scenes s;
  }

  -- What a method writes, if what follows is quiet.
  pub bind-Steps :
      {C : Type 0} (m : M W A) (f : A → M W B) (s : Sys W)
      → Steps C s.orch (m s).1.orch
      → ((a : A) → IsQuiet C (f a))
      → Steps C s.orch ((m >>= f) s).1.orch
  bind-Steps m f s h k = Steps-trans h ((continue-IsQuiet (m s).0 f k).steps (m s).1)

module _ {W : Type 0} where
  pub IsQuiet-publish_event : {C : Type 0} (e : Sys W → Event) → IsQuiet C (publish_event e)
  IsQuiet-publish_event e = record { steps = λ s. here; cameras = λ s. refl; scenes = λ s. refl }

  pub IsQuiet-run_if :
      {C : Type 0} (b : Bool) (m : M W (Unit {0})) → IsQuiet C m → IsQuiet C (run_if b m)
  IsQuiet-run_if true m q = q
  IsQuiet-run_if false m q = IsQuiet-pure tt

  pub IsQuiet-ignore_error :
      {C : Type 0} (m : M W (Unit {0})) → IsQuiet C m → IsQuiet C (ignore_error m)
  IsQuiet-ignore_error m q = IsQuiet-on_error m _ q (λ e. IsQuiet-pure tt)

module _ {W : Type 0} (d : Deps W) where
  pub set_each-IsQuiet :
      {C : Type 0} (enabled ids : List String) → IsQuiet C (set_each d enabled ids)
  unfolding set_each
  set_each-IsQuiet enabled [] = IsQuiet-pure tt
  set_each-IsQuiet enabled (id ∷ ids) =
      IsQuiet-bind _ _ (IsQuiet-call _ _) (λ u. set_each-IsQuiet enabled ids)

  pub apply-IsQuiet :
      {C : Type 0} (enabled : List String) → IsQuiet C (apply_exclusive_visibility d enabled)
  unfolding apply_exclusive_visibility
  apply-IsQuiet {C} enabled = record {
    steps = λ s. (set_each-IsQuiet {C = C} enabled _).steps s;
    cameras = λ s. (set_each-IsQuiet {C = C} enabled _).cameras s;
    scenes = λ s. (set_each-IsQuiet {C = C} enabled _).scenes s;
  }

  pub persist_scenes-IsQuiet : {C : Type 0} → IsQuiet C (persist_scenes d)
  unfolding persist_scenes
  persist_scenes-IsQuiet = record { steps = λ s. here; cameras = λ s. refl; scenes = λ s. refl }

pub ruleset quiet_rules = (
  IsQuiet-call, IsQuiet-read, IsQuiet-attempt, IsQuiet-pure, IsQuiet-fail, IsQuiet-on_error,
  IsQuiet-bind, IsQuiet-publish_event, IsQuiet-run_if, IsQuiet-ignore_error,
)
