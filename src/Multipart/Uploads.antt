-- ===== src/Multipart/Uploads.antt =====
-- db/repositories/multipart-uploads.ts: the rows of the table and the statements that write it.
use gdrive_s.Base.{
  ℕ, ◌+◌, Bool, true, false, ◌&&◌, Option, none, some, List, [], ◌∷◌, ◌++◌, String, text_key, ◌==◌,
  any, ltb, leb, if◌then◌else◌,
}
use gdrive_s.Store.Rows.{Sse}
use gdrive_s.Store.Table.{find_first, select, order_by, limit}

pub data MultipartStatus : Type 0 where
  opened completing completed aborted expired : MultipartStatus

pub record MultipartUploadRow : Type 0 where
  pub id : String
  pub bucket_id : String
  pub object_key : String
  pub user_id : String
  pub content_type : String
  pub metadata_json : String
  pub status : MultipartStatus
  pub initiated_at : ℕ
  pub expires_at : ℕ
  pub completed_at : Option ℕ
  pub drive_folder_id : Option String
  pub total_parts : Option ℕ
  pub last_error : Option String
  pub drive_target_id : Option String
  pub sse : Sse

-- `sse` holds the columns that an upload without encryption leaves null, and `now` is the clock.
pub record CreateMultipartInput : Type 0 where
  pub id : String
  pub user_id : String
  pub bucket_id : String
  pub drive_folder_id : String
  pub object_key : String
  pub content_type : String
  pub metadata_json : String
  pub now : ℕ
  pub expires_at : ℕ
  pub drive_target_id : Option String
  pub sse : Sse

abbrev pub is_open : MultipartStatus → Bool
is_open opened = true
is_open _ = false

-- `status IN ('open', 'completing')`
abbrev pub is_active : MultipartStatus → Bool
is_active opened = true
is_active completing = true
is_active _ = false

-- `UPDATE … SET … WHERE …`: the table after it, and how many rows it changed.
unfoldable pub updated :
    (MultipartUploadRow → Bool)
    → (MultipartUploadRow → MultipartUploadRow)
    → List MultipartUploadRow
    → List MultipartUploadRow
updated chosen change [] = []
updated chosen change (r ∷ t) = (if chosen r then change r else r) ∷ updated chosen change t

unfoldable pub changes : (MultipartUploadRow → Bool) → List MultipartUploadRow → ℕ
changes chosen [] = 0
changes chosen (r ∷ t) = (if chosen r then 1 else 0) + changes chosen t

abbrev pub created : CreateMultipartInput → MultipartUploadRow
created input = record {
  id = input.id;
  bucket_id = input.bucket_id;
  object_key = input.object_key;
  user_id = input.user_id;
  content_type = input.content_type;
  metadata_json = input.metadata_json;
  status = opened;
  initiated_at = input.now;
  expires_at = input.expires_at;
  completed_at = none;
  drive_folder_id = some input.drive_folder_id;
  total_parts = none;
  last_error = none;
  drive_target_id = input.drive_target_id;
  sse = input.sse;
}

abbrev pub open_row : String → MultipartUploadRow → Bool
open_row id r = (r.id == id) && is_open r.status

abbrev pub active_row : String → MultipartUploadRow → Bool
active_row id r = (r.id == id) && is_active r.status

pub data Statement : Type 0 where
  create : CreateMultipartInput → Statement
  mark_completing : String → Statement
  mark_completed : String → ℕ → ℕ → Statement
  mark_failed : String → String → Statement
  mark_aborted : String → Statement
  mark_expired : String → Statement

unfoldable pub known : String → List MultipartUploadRow → Bool
known id t = any (λ r. r.id == id) t

-- The method's answer and the table after it. `id` is the primary key: an insert of one that is
-- there fails and changes nothing. A method that returns nothing answers false here.
unfoldable pub apply : Statement → List MultipartUploadRow → Bool × List MultipartUploadRow
apply (create input) t = if known input.id t then (false, t) else (true, t ++ (created input ∷ []))
apply (mark_completing id) t = (
  ltb 0 (changes (open_row id) t),
  updated (open_row id) (λ r. record r { status = completing; last_error = none }) t,
)
apply (mark_completed id total_parts now) t = (
  false,
  updated (λ r. r.id == id)
      (λ r. record r {
        status = completed;
        completed_at = some now;
        total_parts = some total_parts;
      })
      t,
)
apply (mark_failed id error) t =
    (false, updated (active_row id) (λ r. record r { status = aborted; last_error = some error }) t)
apply (mark_aborted id) t = (
  ltb 0 (changes (active_row id) t),
  updated (active_row id) (λ r. record r { status = aborted }) t,
)
apply (mark_expired id) t =
    (ltb 0 (changes (open_row id) t), updated (open_row id) (λ r. record r { status = expired }) t)

-- `countOpenByBucket`, `countOpenForUser`, `hasOpenInBucket`
unfoldable pub count_open_by_bucket : String → List MultipartUploadRow → ℕ
count_open_by_bucket bucket_id t = changes (λ r. (r.bucket_id == bucket_id) && is_open r.status) t

unfoldable pub count_open_for_user : String → List MultipartUploadRow → ℕ
count_open_for_user user_id t = changes (λ r. (r.user_id == user_id) && is_open r.status) t

unfoldable pub has_open_in_bucket : String → List MultipartUploadRow → Bool
unfolding count_open_by_bucket
has_open_in_bucket bucket_id t = ltb 0 (count_open_by_bucket bucket_id t)

abbrev pub by_id : String → List MultipartUploadRow → Option MultipartUploadRow
by_id id t = find_first (λ r. r.id == id) t

abbrev pub expired_row : ℕ → MultipartUploadRow → Bool
expired_row now r = is_open r.status && leb r.expires_at now

unfoldable pub list_expired : ℕ → ℕ → List MultipartUploadRow → List MultipartUploadRow
list_expired now size t =
    limit size (order_by (λ a b. ltb a.expires_at b.expires_at) (select (expired_row now) t))
