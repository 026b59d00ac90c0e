-- ===== src/Common/Codes.antt =====
-- src/status.h: the status codes. A function that returns 0 or a negated code returns a `Status`.
pub data Status : Type 0 where
  all_ok eio einvarg enomem ebadpath efsnotus erdonly eunimp eistkn einformat : Status
