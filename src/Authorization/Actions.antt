-- ===== src/Authorization/Actions.antt =====
-- The actions of services/authorization-service.ts and the sets it keeps of them.
use gdrive_s.Base.{Bool, true, false, List, [], ◌∷◌, Text, units, units_key}

pub data S3Action : Type 0 where
  get_object put_object delete_object list_bucket get_bucket_location get_bucket_policy : S3Action
  put_bucket_policy get_bucket_acl put_bucket_acl get_object_acl put_object_acl : S3Action
  abort_multipart_upload list_multipart_upload_parts : S3Action

unfoldable pub action_name : S3Action → Text
action_name get_object = units "s3:GetObject"
action_name put_object = units "s3:PutObject"
action_name delete_object = units "s3:DeleteObject"
action_name list_bucket = units "s3:ListBucket"
action_name get_bucket_location = units "s3:GetBucketLocation"
action_name get_bucket_policy = units "s3:GetBucketPolicy"
action_name put_bucket_policy = units "s3:PutBucketPolicy"
action_name get_bucket_acl = units "s3:GetBucketAcl"
action_name put_bucket_acl = units "s3:PutBucketAcl"
action_name get_object_acl = units "s3:GetObjectAcl"
action_name put_object_acl = units "s3:PutObjectAcl"
action_name abort_multipart_upload = units "s3:AbortMultipartUpload"
action_name list_multipart_upload_parts = units "s3:ListMultipartUploadParts"

-- `WRITE_ACTIONS.has`
unfoldable pub is_write : S3Action → Bool
is_write put_object = true
is_write delete_object = true
is_write put_bucket_policy = true
is_write put_bucket_acl = true
is_write put_object_acl = true
is_write abort_multipart_upload = true
is_write _ = false

-- `OWNER_ONLY_ACTIONS.has`
unfoldable pub is_owner_only : S3Action → Bool
is_owner_only get_bucket_policy = true
is_owner_only put_bucket_policy = true
is_owner_only put_bucket_acl = true
is_owner_only _ = false

abbrev pub visibility_probe_actions : List S3Action
visibility_probe_actions = get_object ∷ put_object ∷ delete_object ∷ list_bucket ∷ []
