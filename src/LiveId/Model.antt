-- ===== src/LiveId/Model.antt =====
-- backend/internal/liveid/model.go and the requests of backend/internal/liveid/dto.go. A time
-- is its count of nanoseconds, and a `uuid.UUID` its text.
use Prim.Native.String.{len, slice, ◌++◌}
use po_c_go_live.Base.{
  ◌≡◌, refl, ◌⊎◌, inl, inr, ℕ, zero, suc, ◌-◌, leb, String, Bool, true, Option, none, some, ltb,
  ◌||◌, ◌==◌, if◌then◌else◌,
}
use po_c_go_live.Base.Text.{trim_space}

abbrev pub max_live_id_len : ℕ
max_live_id_len = 255

abbrev pub max_stream_key_len : ℕ
max_stream_key_len = 512

abbrev pub stream_key_reveal : ℕ
stream_key_reveal = 4

-- `database_failed` stands for an error of the database, which is passed on.
pub data Refusal : Type 0 where
  not_found duplicate_live_id client_not_found platform_not_found : Refusal
  invalid_live_id invalid_stream_key database_failed : Refusal

pub data Outcome (A : Type 0) : Type 0 where
  ok : A → Outcome A
  err : Refusal → Outcome A

pub record ClientLiveId : Type 0 where
  pub client_id : String
  pub platform_id : String
  pub live_id : String
  pub stream_key : String
  pub is_active : Bool
  pub created_at : ℕ

pub record CreateRequest : Type 0 where
  pub platform_id : String
  pub live_id : String
  pub stream_key : String
  pub is_active : Option Bool

-- A field is `none` where it is nil.
pub record UpdateRequest : Type 0 where
  pub live_id : Option String
  pub stream_key : Option String
  pub is_active : Option Bool

abbrev pub active_or_default : Option Bool → Bool
active_or_default none = true
active_or_default (some b) = b

-- `len` counts bytes, as Go's does.
unfoldable pub normalize_live_id : String → Outcome String
normalize_live_id text =
    let trimmed = trim_space text in
    if trimmed == "" || ltb max_live_id_len (len trimmed) then err invalid_live_id else ok trimmed

unfoldable pub normalize_stream_key : String → Outcome String
normalize_stream_key text =
    let trimmed = trim_space text in
    if ltb max_stream_key_len (len trimmed) then err invalid_stream_key else ok trimmed

-- strings.Repeat("*", n)
unfoldable pub stars : ℕ → String
stars zero = ""
stars (suc n) = "*" ++ stars n

-- `MaskStreamKey`, on bytes.
unfoldable pub mask_stream_key : String → String
mask_stream_key key =
    if leb (len key) stream_key_reveal
    then stars (len key)
    else stars (len key - stream_key_reveal) ++ slice key (len key - stream_key_reveal) (len key)

-- `ToResponse`, less the identifier.
unfoldable pub to_response : ClientLiveId → ClientLiveId
to_response r = record r { stream_key = mask_stream_key r.stream_key }

pub Outcome-cases :
    {A : Type 0} (r : Outcome A) → ((a : A) × (r ≡ ok a)) ⊎ ((e : Refusal) × (r ≡ err e))
Outcome-cases (ok a) = inl (a, refl)
Outcome-cases (err e) = inr (e, refl)
