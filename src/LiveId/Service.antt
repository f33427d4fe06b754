-- ===== src/LiveId/Service.antt =====
-- `Create`, `GetByID`, `Update` and `Delete` of backend/internal/liveid/service.go. A table is a map
-- from primary keys to rows; a transaction that returns an error leaves it as it was.
use Prim.Native.String.{◌++◌}
use po_c_go_live.Base.{
  ℕ, List, [], ◌∷◌, String, Bool, true, false, not, ◌&&◌, Option, none, some, ◌==◌, if◌then◌else◌,
}
use po_c_go_live.Dict.{Dict, get, put, del, find}
use po_c_go_live.Database.{micros}
use po_c_go_live.Database.Listing.{is_text, is_flag, Cursor, filter, ordered, list_rows}
use po_c_go_live.Pagination.Page.{Page}
use po_c_go_live.Pagination.Request.{Request}
use po_c_go_live.Platform.Model.{Platform}
use po_c_go_live.LiveId.Model.{
  Refusal, not_found, duplicate_live_id, client_not_found, platform_not_found, database_failed,
  Outcome, ok, err, ClientLiveId, CreateRequest, UpdateRequest, active_or_default,
  normalize_live_id, normalize_stream_key, to_response,
}

abbrev pub Table : Type 0
Table = Dict ClientLiveId

-- What the table keeps of a new row.
abbrev pub stored : ClientLiveId → ClientLiveId
stored r = record r { created_at = micros r.created_at }

-- `answers` tells whether the database answers the call. `ClientChecker` and `PlatformChecker`, where
-- `none` is an error, and the key and the time that a new row gets.
pub record Deps : Type 0 where
  pub answers : Bool
  pub client_exists : String → Option Bool
  pub platform_exists : String → Option Bool
  pub random_uuid : Table → String
  pub now : ℕ

-- client_id = ? AND platform_id = ? AND live_id = ?
abbrev pub has_tuple : String → String → String → ClientLiveId → Bool
has_tuple client platform live r =
    r.client_id == client && (r.platform_id == platform && r.live_id == live)

-- And id <> ?
unfoldable pub taken_by_other : String → String → String → String → String → ClientLiveId → Bool
taken_by_other except client platform live id r =
    not (id == except) && has_tuple client platform live r

unfoldable pub taken : String → String → String → String → ClientLiveId → Bool
taken client platform live id r = has_tuple client platform live r

-- An INSERT is refused if the key is there.
abbrev insert : String → ClientLiveId → Table → Outcome ClientLiveId × Table
insert id r t = elim (get id t) [
  | none ↦ (ok r, put id (stored r) t)
  | some old ↦ (err database_failed, t)
]

abbrev check :
    Option Bool → Refusal → Outcome ClientLiveId × Table → Table → Outcome ClientLiveId × Table
check none e next t = (err database_failed, t)
check (some false) e next t = (err e, t)
check (some true) e next t = next

unfoldable pub create_row : Deps → ClientLiveId → Table → Outcome ClientLiveId × Table
create_row d r t =
    check (if d.answers then d.client_exists r.client_id else none) client_not_found
      (check (d.platform_exists r.platform_id) platform_not_found
        (elim (find (taken r.client_id r.platform_id r.live_id) t) [
          | none ↦ insert (d.random_uuid t) r t
          | some e ↦ (err duplicate_live_id, t)
        ])
        t)
      t

unfoldable pub create : Deps → String → CreateRequest → Table → Outcome ClientLiveId × Table
create d client req t = elim (normalize_live_id req.live_id) [
  | err e ↦ (err e, t)
  | ok live ↦ elim (normalize_stream_key req.stream_key) [
    | err e ↦ (err e, t)
    | ok key ↦
        let r : ClientLiveId = record {
          client_id = client;
          platform_id = req.platform_id;
          live_id = live;
          stream_key = key;
          is_active = active_or_default req.is_active;
          created_at = d.now;
        } in
        create_row d r t
  ]
]

unfoldable pub get_by_id : Deps → String → Table → Outcome ClientLiveId
get_by_id d id t =
    if d.answers
    then elim (get id t) [ none ↦ err not_found | some r ↦ ok r ]
    else err database_failed

-- The new live identifier, with the check that no other row has it.
unfoldable pub with_live_id : String → Option String → ClientLiveId → Table → Outcome ClientLiveId
with_live_id id none r t = ok r
with_live_id id (some text) r t = elim (normalize_live_id text) [
  | err e ↦ err e
  | ok live ↦ elim (find (taken_by_other id r.client_id r.platform_id live) t) [
    | some e ↦ err duplicate_live_id
    | none ↦ ok (record r { live_id = live })
  ]
]

abbrev pub with_active : Option Bool → ClientLiveId → ClientLiveId
with_active none r = r
with_active (some b) r = record r { is_active = b }

unfoldable pub with_stream_key : Option String → ClientLiveId → Outcome ClientLiveId
with_stream_key none r = ok r
with_stream_key (some text) r = elim (normalize_stream_key text) [
  | err e ↦ err e
  | ok key ↦ ok (record r { stream_key = key })
]

-- The transaction of `Update`.
unfoldable pub change : String → UpdateRequest → Table → Outcome ClientLiveId × Table
change id req t = elim (get id t) [
  | none ↦ (err not_found, t)
  | some r ↦ elim (with_live_id id req.live_id r t) [
    | err e ↦ (err e, t)
    | ok named ↦ elim (with_stream_key req.stream_key (with_active req.is_active named)) [
      | err e ↦ (err e, t)
      | ok changed ↦ (ok changed, put id changed t)
    ]
  ]
]

unfoldable pub update : Deps → String → UpdateRequest → Table → Outcome ClientLiveId × Table
update d id req t = if d.answers then change id req t else (err database_failed, t)

unfoldable pub delete : Deps → String → Table → Outcome (Unit {0}) × Table
delete d id t =
    if d.answers
    then elim (get id t) [ none ↦ (err not_found, t) | some r ↦ (ok tt, del id t) ]
    else (err database_failed, t)

pub record ListFilter : Type 0 where
  pub client_id : Option String
  pub platform_id : Option String
  pub is_active : Option Bool

abbrev pub is_listed : ListFilter → String × ClientLiveId → Bool
is_listed f (id, r) =
    is_text f.client_id r.client_id
    && (is_text f.platform_id r.platform_id && is_flag f.is_active r.is_active)

-- The check of the filter's client: `none` is no refusal.
abbrev filter_refusal : Deps → Option String → Option Refusal
filter_refusal d none = none
filter_refusal d (some client) = elim (d.client_exists client) [
  | none ↦ some database_failed
  | some false ↦ some client_not_found
  | some true ↦ none
]

responses : List (String × ClientLiveId) → List (String × ClientLiveId)
responses [] = []
responses ((id, r) ∷ rows) = (id, to_response r) ∷ responses rows

abbrev with_responses : Page (String × ClientLiveId) → Page (String × ClientLiveId)
with_responses page = record page { items = responses page.items }

-- `List`, the pages of which have the responses in place of the rows. `number` and `encode` are as in
-- Database/Listing.
unfoldable pub list :
    (String → ℕ)
    → (Cursor → String)
    → Deps
    → ListFilter
    → Request Cursor
    → Table
    → Outcome (Page (String × ClientLiveId))
unfolding responses
list number encode d f req t = elim (filter_refusal d f.client_id) [
  | some e ↦ err e
  | none ↦
      if d.answers
      then ok (with_responses (list_rows number (λ r. r.created_at) encode (is_listed f) req t))
      else err database_failed
]

pub record Destination : Type 0 where
  pub live_id : String
  pub platform_name : String
  pub push_url : String

-- WHERE l.client_id = ? AND l.is_active = true
abbrev pub is_active_for : String → String × ClientLiveId → Bool
is_active_for client (id, r) = r.client_id == client && r.is_active

-- The join with the platforms, a row without one being left out, and the destination of a row.
unfoldable pub destinations : Dict Platform → List (String × ClientLiveId) → List Destination
destinations platforms [] = []
destinations platforms ((id, r) ∷ rows) =
    let rest = destinations platforms rows in
    elim (get r.platform_id platforms) [
      | none ↦ rest
      | some p ↦
          record {
            live_id = id;
            platform_name = p.display_name;
            push_url = p.ingest_url_template ++ ("/" ++ r.stream_key);
          }
          ∷ rest
    ]

-- `ListActiveForClient`
unfoldable pub list_active_for_client :
    (String → ℕ) → Dict Platform → String → Table → List Destination
list_active_for_client number platforms client t =
    destinations platforms (ordered number (λ r. r.created_at) (filter (is_active_for client) t))
