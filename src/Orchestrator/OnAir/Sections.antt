-- ===== src/Orchestrator/OnAir/Sections.antt =====
-- The invariant on what is in preview and on air, through the locked sections of
-- backend/internal/orchestrator/orchestrator.go that touch the scenes and the live state.
use po_c_go_live.Base.{
  String, ◌≡◌, ◌≢◌, refl, ◌⊎◌, inl, inr, none, some, List, arith, eq_iff, Option-cases, ap,
}
use po_c_go_live.Dict.{Dict, get, put, del, get-put, get-del}
use po_c_go_live.Orchestrator.Models.{Scene, LiveKind}
use po_c_go_live.Orchestrator.State.{Orch, Result-cases}
use po_c_go_live.Orchestrator.Names.{validate_scene_position_ids}
use po_c_go_live.Orchestrator.Scenes.{
  with_scene, without_scene, rename_scene_to, replace_positions, remove_scene,
}
use po_c_go_live.Orchestrator.Live.{preview_camera, preview_scene, commit_camera, commit_scene}
use po_c_go_live.Orchestrator.OnAir.{IsOnAir}

pub rest_IsOnAir : (o o' : Orch) → o'.scenes ≡ o.scenes → o'.live ≡ o.live → IsOnAir o → IsOnAir o'
rest_IsOnAir o o' e f h = record {
  scene_key = λ k sc g. h.scene_key k sc (rw e at g);
  live_scene = λ g. rw (e, f) (h.live_scene (rw f at g));
  preview_scene = λ g. rw (e, f) (h.preview_scene (rw f at g));
}

put-keeps :
    {V : Type 0} (k j : String) (v : V) (m : Dict V) → get j m ≢ none → get j (put k v m) ≢ none
put-keeps k j v m h = rw (get-put k j v m) (ground arith)

del-keeps :
    {V : Type 0} (k j : String) (m : Dict V) → k ≢ j → get j m ≢ none → get j (del k m) ≢ none
del-keeps k j m n h = rw (get-del k j m) (ground (arith, eq_iff k j))

-- A scene that is put under its identifier takes no scene away.
pub with_scene-IsOnAir : (o : Orch) (sc : Scene) → IsOnAir o → IsOnAir (with_scene sc.id sc o)
with_scene-IsOnAir o sc h = record {
  scene_key = λ k x g. ground (arith, get-put sc.id k sc o.scenes, eq_iff sc.id k, h.scene_key k x);
  live_scene = λ g. put-keeps sc.id o.live.live_id sc o.scenes (h.live_scene g);
  preview_scene = λ g. put-keeps sc.id o.live.preview_id sc o.scenes (h.preview_scene g);
}

-- A scene that nothing shows may go.
pub without_scene-IsOnAir :
    (o o' : Orch) (id : String)
    → o'.scenes ≡ del id o.scenes
    → (o'.live.live_kind ≡ LiveKind.scene → get o'.live.live_id o'.scenes ≢ none)
    → (o'.live.preview_kind ≡ LiveKind.scene → get o'.live.preview_id o'.scenes ≢ none)
    → IsOnAir o
    → IsOnAir o'
without_scene-IsOnAir o o' id e f g h = record {
  scene_key = λ k x z. ground (arith, get-del id k o.scenes, ap (get k) e, h.scene_key k x);
  live_scene = f;
  preview_scene = g;
}

pub undo_scene-IsOnAir :
    (o : Orch) (sc : Scene)
    → get sc.id o.scenes ≡ none
    → IsOnAir o
    → IsOnAir (without_scene sc.id (with_scene sc.id sc o))
undo_scene-IsOnAir o sc n h =
    let keeps : (j : String)
        → get j o.scenes ≢ none
        → get j (del sc.id (put sc.id sc o.scenes)) ≢ none =
      λ j z. del-keeps sc.id j _ (λ q. z (rw (← q) n)) (put-keeps sc.id j sc o.scenes z) in
    without_scene-IsOnAir (with_scene sc.id sc o) _ sc.id refl (λ g. keeps _ (h.live_scene g))
      (λ g. keeps _ (h.preview_scene g)) (with_scene-IsOnAir o sc h)

pub remove_scene-IsOnAir : (o : Orch) (id : String) → IsOnAir o → IsOnAir (remove_scene id o).1
unfolding remove_scene
remove_scene-IsOnAir o id h = record {
  scene_key = λ k x g. ground (arith, get-del id k o.scenes, h.scene_key k x);
  live_scene = λ g. ground (
    arith,
    get-del id o.live.live_id o.scenes,
    eq_iff o.live.live_id id,
    eq_iff id o.live.live_id,
    h.live_scene,
  );
  preview_scene = λ g. ground (
    arith,
    get-del id o.live.preview_id o.scenes,
    eq_iff o.live.preview_id id,
    eq_iff id o.live.preview_id,
    h.preview_scene,
  );
}

pub preview_scene-IsOnAir : (o : Orch) (id : String) → IsOnAir o → IsOnAir (preview_scene id o).1
unfolding preview_scene
preview_scene-IsOnAir o id h = record {
  scene_key = λ k x g. ground (arith, h.scene_key k x);
  live_scene = λ g. ground (arith, h.live_scene);
  preview_scene = λ g. ground (arith, h.preview_scene);
}

pub preview_camera-IsOnAir : (o : Orch) (id : String) → IsOnAir o → IsOnAir (preview_camera id o).1
unfolding preview_camera
preview_camera-IsOnAir o id h = record {
  scene_key = λ k x g. ground (arith, h.scene_key k x);
  live_scene = λ g. ground (arith, h.live_scene);
  preview_scene = λ g. ground (arith, h.preview_scene);
}

-- A section that changes nothing, or puts a scene under its identifier.
rewrites :
    (o o' : Orch) (id : String)
    → ((o' ≡ o) ⊎ ((sc : Scene) × (sc.id ≡ id) × (o' ≡ with_scene id sc o)))
    → IsOnAir o
    → IsOnAir o'
rewrites o o' id (inl e) h = rw e h
rewrites o o' id (inr (sc, n, e)) h = rw (e, ← n) (with_scene-IsOnAir o sc h)

pub rename_scene_to-IsOnAir :
    (o : Orch) (id name : String) → IsOnAir o → IsOnAir (rename_scene_to id name o).1
unfolding rename_scene_to
rename_scene_to-IsOnAir o id name h =
    rewrites o _ id
      (elim (Option-cases (get id o.scenes)) [
        | inl z ↦ inl (ground arith)
        | inr (sc, z) ↦ grind (arith, h.scene_key id sc z)
      ])
      h

pub replace_positions-IsOnAir :
    (o : Orch) (id : String) (ids : List String)
    → IsOnAir o
    → IsOnAir (replace_positions id ids o).1
unfolding replace_positions
replace_positions-IsOnAir o id ids h =
    rewrites o _ id
      (elim (Option-cases (get id o.scenes)) [
        | inl z ↦ inl (ground arith)
        | inr (sc, z) ↦ elim (Result-cases (validate_scene_position_ids ids o.positions)) [
          | inl (u, v) ↦ inr (record sc { position_ids = ids }, h.scene_key id sc z, ground arith)
          | inr (e, v) ↦ inl (ground arith)
        ]
      ])
      h

pub commit_camera-IsOnAir : (o : Orch) (id : String) → IsOnAir o → IsOnAir (commit_camera id o).1
unfolding commit_camera
commit_camera-IsOnAir o id h = record {
  scene_key = λ k x g. ground (arith, h.scene_key k x);
  live_scene = λ g. ground arith;
  preview_scene = λ g. ground (arith, h.preview_scene);
}

pub commit_scene-IsOnAir :
    (o : Orch) (key : String) (sc : Scene)
    → get key o.scenes ≡ some sc
    → IsOnAir o
    → IsOnAir (commit_scene sc.id o).1
unfolding commit_scene
commit_scene-IsOnAir o key sc g h = record {
  scene_key = h.scene_key;
  live_scene = λ z. rw (h.scene_key key sc g, g) (ground arith);
  preview_scene = h.preview_scene;
}
