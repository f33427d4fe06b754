-- ===== src/Client/Email.antt =====
-- `emailPattern` of backend/internal/client/model.go, as the test that it is for a text, and as the
-- texts that it stands for.
use Prim.Native.Char.{Char, code}
use Prim.Native.String.{String, [], ◌∷◌, ◌++◌}
use text.Mathlib.TextLemmas.{nil-append, cons-append}
use po_c_go_live.Base.{
  ◌≡◌, refl, sym, ap, ◌↔◌, ◌∙◌, inl, inr, Bool, true, false, not, ◌&&◌, ◌||◌, arith, eqb,
  Bool-cases,
}

-- [^\s@]: RE2's \s is a tab, a line feed, a form feed, a carriage return or a space.
unfoldable pub is_plain : Char → Bool
is_plain ch =
    let c = code ch in not (eqb c 9 || eqb c 10 || eqb c 12 || eqb c 13 || eqb c 32 || eqb c b'@')

unfoldable pub is_at : Char → Bool
is_at ch = eqb (code ch) b'@'

unfoldable pub is_dot : Char → Bool
is_dot ch = eqb (code ch) b'.'

unfoldable pub all_plain : String → Bool
all_plain [] = true
all_plain (c ∷ s) = is_plain c && all_plain s

-- [^\s@]+$
unfoldable pub some_plain : String → Bool
unfolding all_plain
some_plain [] = false
some_plain (c ∷ s) = is_plain c && all_plain s

-- [^\s@]*\.[^\s@]+$
unfoldable pub dot_later : String → Bool
unfolding some_plain
dot_later [] = false
dot_later (c ∷ s) = let rest = dot_later s in is_dot c && some_plain s || is_plain c && rest

-- [^\s@]+\.[^\s@]+$
unfoldable pub is_domain : String → Bool
unfolding dot_later
is_domain [] = false
is_domain (c ∷ s) = is_plain c && dot_later s

-- [^\s@]*@[^\s@]+\.[^\s@]+$
unfoldable pub at_later : String → Bool
unfolding is_domain
at_later [] = false
at_later (c ∷ s) = let rest = at_later s in is_at c && is_domain s || is_plain c && rest

-- `emailPattern.MatchString`
unfoldable pub matches_email : String → Bool
unfolding at_later
matches_email [] = false
matches_email (c ∷ s) = is_plain c && at_later s

-- What the pattern stands for: a local part, an @, and a domain of two parts around a dot.
pub record Address (s : String) : Type 0 where
  pub name : String
  pub at : Char
  pub host : String
  pub dot : Char
  pub top : String
  pub parts : s ≡ name ++ (at ∷ (host ++ (dot ∷ top)))
  pub name_plain : some_plain name ≡ true
  pub at_is : is_at at ≡ true
  pub host_plain : some_plain host ≡ true
  pub dot_is : is_dot dot ≡ true
  pub top_plain : some_plain top ≡ true

DotLater : String → Type 0
DotLater s =
    (host : String) × (dot : Char) × (top : String) × (s ≡ host ++ (dot ∷ top))
    × (all_plain host ≡ true)
    × (is_dot dot ≡ true)
    × (some_plain top ≡ true)

dot_later_parts : (s : String) → dot_later s ≡ true → DotLater s
unfolding dot_later DotLater all_plain
dot_later_parts [] e = absurd (ground arith)
dot_later_parts (c ∷ s) e = elim (Bool-cases (is_dot c && some_plain s)) [
  | inl z ↦ ([], c, s, sym (nil-append (c ∷ s)), refl, ground arith, ground arith)
  | inr z ↦
      let (host, dot, top, p, h, i, t) = dot_later_parts s (ground arith) in
      (
        c ∷ host,
        dot,
        top,
        ap (λ x. c ∷ x) p ∙ sym (cons-append c host (dot ∷ top)),
        ground arith,
        i,
        t,
      )
]

AtLater : String → Type 0
AtLater s =
    (name : String) × (at : Char) × (rest : String) × (s ≡ name ++ (at ∷ rest))
    × (all_plain name ≡ true)
    × (is_at at ≡ true)
    × (is_domain rest ≡ true)

at_later_parts : (s : String) → at_later s ≡ true → AtLater s
unfolding at_later AtLater all_plain
at_later_parts [] e = absurd (ground arith)
at_later_parts (c ∷ s) e = elim (Bool-cases (is_at c && is_domain s)) [
  | inl z ↦ ([], c, s, sym (nil-append (c ∷ s)), refl, ground arith, ground arith)
  | inr z ↦
      let (name, at, rest, p, n, i, d) = at_later_parts s (ground arith) in
      (
        c ∷ name,
        at,
        rest,
        ap (λ x. c ∷ x) p ∙ sym (cons-append c name (at ∷ rest)),
        ground arith,
        i,
        d,
      )
]

dot_later_of :
    (host : String) (dot : Char) (top : String)
    → all_plain host ≡ true
    → is_dot dot ≡ true
    → some_plain top ≡ true
    → dot_later (host ++ (dot ∷ top)) ≡ true
unfolding dot_later all_plain
dot_later_of [] dot top h i t = rw (nil-append (dot ∷ top)) (ground arith)
dot_later_of (c ∷ host) dot top h i t =
    rw (cons-append c host (dot ∷ top)) (ground (arith, dot_later_of host dot top))

at_later_of :
    (name : String) (at : Char) (rest : String)
    → all_plain name ≡ true
    → is_at at ≡ true
    → is_domain rest ≡ true
    → at_later (name ++ (at ∷ rest)) ≡ true
unfolding at_later all_plain
at_later_of [] at rest h i t = rw (nil-append (at ∷ rest)) (ground arith)
at_later_of (c ∷ name) at rest h i t =
    rw (cons-append c name (at ∷ rest)) (ground (arith, at_later_of name at rest))

domain_of :
    (host : String) (dot : Char) (top : String)
    → some_plain host ≡ true
    → is_dot dot ≡ true
    → some_plain top ≡ true
    → is_domain (host ++ (dot ∷ top)) ≡ true
unfolding is_domain some_plain
domain_of [] dot top h i t = absurd (ground arith)
domain_of (c ∷ host) dot top h i t =
    rw (cons-append c host (dot ∷ top)) (ground (arith, dot_later_of host dot top))

address_of :
    (name : String) (at : Char) (rest : String)
    → some_plain name ≡ true
    → is_at at ≡ true
    → is_domain rest ≡ true
    → matches_email (name ++ (at ∷ rest)) ≡ true
unfolding matches_email some_plain
address_of [] at rest h i d = absurd (ground arith)
address_of (c ∷ name) at rest h i d =
    rw (cons-append c name (at ∷ rest)) (ground (arith, at_later_of name at rest))

Domain : String → Type 0
Domain s =
    (host : String) × (dot : Char) × (top : String) × (s ≡ host ++ (dot ∷ top))
    × (some_plain host ≡ true)
    × (is_dot dot ≡ true)
    × (some_plain top ≡ true)

host_and_top : (s : String) → is_domain s ≡ true → Domain s
unfolding is_domain Domain DotLater some_plain
host_and_top [] e = absurd (ground arith)
host_and_top (c ∷ s) e =
    let (host, dot, top, p, h, i, t) = dot_later_parts s (ground arith) in
    (
      c ∷ host,
      dot,
      top,
      ap (λ x. c ∷ x) p ∙ sym (cons-append c host (dot ∷ top)),
      ground arith,
      i,
      t,
    )

split_at_sign : (s : String) → matches_email s ≡ true → Address s
unfolding matches_email AtLater Domain some_plain
split_at_sign [] e = absurd (ground arith)
split_at_sign (c ∷ s) e =
    let (name, at, rest, p, n, i, d) = at_later_parts s (ground arith) in
    let (host, dot, top, q, h, j, t) = host_and_top rest d in
    record {
      name = c ∷ name;
      at = at;
      host = host;
      dot = dot;
      top = top;
      parts =
          ap (λ x. c ∷ x) (p ∙ ap (λ x. name ++ (at ∷ x)) q)
          ∙ sym (cons-append c name (at ∷ (host ++ (dot ∷ top))));
      name_plain = ground arith;
      at_is = i;
      host_plain = h;
      dot_is = j;
      top_plain = t;
    }

-- The test finds exactly the texts that are a local part, an @ and a domain of two parts around a dot,
-- each part of at least one character and none of white space or another @.
pub matches_email-Address : (s : String) → (matches_email s ≡ true) ↔ Address s
matches_email-Address s = (
  split_at_sign s,
  λ a. rw a.parts (
      address_of a.name a.at (a.host ++ (a.dot ∷ a.top)) a.name_plain a.at_is
        (domain_of a.host a.dot a.top a.host_plain a.dot_is a.top_plain)),
)
