-- ===== src/Orchestrator/Naming/Sections.antt =====
-- The invariant on names, on the two maps of backend/internal/orchestrator/orchestrator.go.
use po_c_go_live.Base.{
  String, ◌≡◌, ◌≢◌, ap, sym, ◌∙◌, false, inl, inr, none, some, arith, ◌==◌, eq_iff, Option-cases,
}
use po_c_go_live.Dict.{get-put-cases, Dict, get, put, del, find, get-put, get-del, find_none}
use po_c_go_live.Orchestrator.Models.{Position, Scene, is_simple, simple_position_id}
use po_c_go_live.Orchestrator.Names.{
  position_named, other_position_named, scene_named, other_scene_named,
}
use po_c_go_live.Orchestrator.Naming.{AreNamed, AreTitled}
use po_c_go_live.Orchestrator.Naming.Same.{AreSame}

pub same-AreNamed : (m m' : Dict Position) → AreSame m m' → AreNamed m → AreNamed m'
same-AreNamed m m' s h = record {
  key = λ k p g. elim (Option-cases (get k m)) [
    | inl z ↦ absurd (ground (arith, s k))
    | inr (x, z) ↦ ground (arith, s k, h.key k x z)
  ];
  unique = λ i j p q a b x y e. elim (Option-cases (get i m)) [
    | inl z ↦ absurd (ground (arith, s i))
    | inr (u, z) ↦ elim (Option-cases (get j m)) [
      | inl z' ↦ absurd (ground (arith, s j))
      | inr (v, z') ↦ h.unique i j u v z z' x y (ground (arith, s i, s j))
    ]
  ];
}

pub del-AreNamed : (id : String) (m : Dict Position) → AreNamed m → AreNamed (del id m)
del-AreNamed id m h = record {
  key = λ k p g. ground (arith, get-del id k m, h.key k p);
  unique = λ i j p q a b x y e. ground (arith, get-del id i m, get-del id j m, h.unique i j p q);
}

-- A position under its identifier, if no other one but the hidden one has its name.
put-AreNamed :
    (id : String) (x : Position) (m : Dict Position)
    → x.id ≡ id
    → ((k : String) (p : Position)
        → get k m ≡ some p
        → (id == k) ≡ false
        → is_simple k ≡ false
        → is_simple id ≡ false
        → x.name ≢ p.name)
    → AreNamed m
    → AreNamed (put id x m)
put-AreNamed id x m n f h = record {
  key = λ k p g. ground (arith, get-put id k x m, eq_iff id k, h.key k p);
  unique = λ i j p q a b y z e. elim (get-put-cases id x m i p a) [
    | inl (s, t) ↦ elim (get-put-cases id x m j q b) [
      | inl (u, v) ↦ sym s ∙ u
      | inr (u, v) ↦ absurd (f j q v u z (ap is_simple s ∙ y) (ap (λ r. r.name) t ∙ e))
    ]
    | inr (s, t) ↦ elim (get-put-cases id x m j q b) [
      | inl (u, v) ↦ absurd (f i p t s y (ap is_simple u ∙ z) (ap (λ r. r.name) v ∙ sym e))
      | inr (u, v) ↦ h.unique i j p q t v y z e
    ]
  ];
}

pub add-AreNamed :
    (id name : String) (x : Position) (m : Dict Position)
    → x.id ≡ id
    → x.name ≡ name
    → find (position_named name) m ≡ none
    → AreNamed m
    → AreNamed (put id x m)
unfolding position_named
add-AreNamed id name x m n e f h =
    put-AreNamed id x m n
      (λ k p g a b c z.
        ground (arith, find_none (position_named name) m k p f g, h.key k p g, eq_iff p.name name))
      h

pub rename-AreNamed :
    (id name : String) (x : Position) (m : Dict Position)
    → x.id ≡ id
    → x.name ≡ name
    → find (other_position_named id name) m ≡ none
    → AreNamed m
    → AreNamed (put id x m)
unfolding other_position_named
rename-AreNamed id name x m n e f h =
    put-AreNamed id x m n
      (λ k p g a b c z. ground (
        arith,
        find_none (other_position_named id name) m k p f g,
        eq_iff k id,
        eq_iff id k,
        eq_iff p.name name,
      ))
      h

pub hide-AreNamed :
    (x : Position) (m : Dict Position)
    → x.id ≡ simple_position_id
    → AreNamed m
    → AreNamed (put simple_position_id x m)
hide-AreNamed x m n h =
    put-AreNamed simple_position_id x m n
      (λ k p g a b c z. ground (arith, eq_iff simple_position_id simple_position_id)) h

put-AreTitled :
    (id : String) (x : Scene) (m : Dict Scene)
    → ((k : String) (b : Scene) → get k m ≡ some b → (id == k) ≡ false → x.name ≢ b.name)
    → AreTitled m
    → AreTitled (put id x m)
put-AreTitled id x m f h i j a b p q e = elim (get-put-cases id x m i a p) [
  | inl (s, t) ↦ elim (get-put-cases id x m j b q) [
    | inl (u, v) ↦ sym s ∙ u
    | inr (u, v) ↦ absurd (f j b v u (ap (λ r. r.name) t ∙ e))
  ]
  | inr (s, t) ↦ elim (get-put-cases id x m j b q) [
    | inl (u, v) ↦ absurd (f i a t s (ap (λ r. r.name) v ∙ sym e))
    | inr (u, v) ↦ h i j a b t v e
  ]
]

pub add-AreTitled :
    (id name : String) (x : Scene) (m : Dict Scene)
    → x.name ≡ name
    → find (scene_named name) m ≡ none
    → AreTitled m
    → AreTitled (put id x m)
unfolding scene_named
add-AreTitled id name x m e f h =
    put-AreTitled id x m
      (λ k b g n z. ground (arith, find_none (scene_named name) m k b f g, eq_iff b.name name)) h

pub rename-AreTitled :
    (id name : String) (x : Scene) (m : Dict Scene)
    → x.name ≡ name
    → find (other_scene_named id name) m ≡ none
    → AreTitled m
    → AreTitled (put id x m)
unfolding other_scene_named
rename-AreTitled id name x m e f h =
    put-AreTitled id x m
      (λ k b g n z. ground (
        arith,
        find_none (other_scene_named id name) m k b f g,
        eq_iff k id,
        eq_iff id k,
        eq_iff b.name name,
      ))
      h

-- A scene that keeps its name.
pub keep-AreTitled :
    (id : String) (old x : Scene) (m : Dict Scene)
    → get id m ≡ some old
    → x.name ≡ old.name
    → AreTitled m
    → AreTitled (put id x m)
keep-AreTitled id old x m g e h =
    put-AreTitled id x m (λ k b v n z. ground (arith, h id k old b g v (sym e ∙ z), eq_iff id k)) h

pub del-AreTitled : (id : String) (m : Dict Scene) → AreTitled m → AreTitled (del id m)
del-AreTitled id m h i j a b p q e = ground (arith, get-del id i m, get-del id j m, h i j a b)

-- A scene that was put and taken out again.
pub undo-AreTitled :
    (id : String) (x : Scene) (m : Dict Scene) → AreTitled m → AreTitled (del id (put id x m))
undo-AreTitled id x m h i j a b p q e = ground (
  arith,
  get-del id i (put id x m),
  get-del id j (put id x m),
  get-put id i x m,
  get-put id j x m,
  h i j a b,
)
