-- ===== src/AppError.antt =====
-- backend/internal/apperror/errors.go: the error codes that HTTP and WebSocket share.
pub data Code : Type 0 where
  success internal_failure missing_param invalid_param unauthorized : Code
  username_too_short password_too_short username_taken user_not_found : Code
  wrong_password invalid_token : Code
  self_request already_friends friend_blocked duplicate_request : Code
  request_not_found not_request_target already_blocked : Code
  not_owner_or_admin group_not_found already_member group_full : Code
  cannot_remove_owner cannot_leave_as_owner invalid_role : Code
  member_not_friend cannot_remove_peer group_member_not_found : Code
  msg_not_revocable msg_revoke_not_owner msg_delete_failed : Code
  moment_content_empty moment_not_found not_comment_owner : Code
  invalid_visibility comment_not_found not_moment_owner : Code
  settings_not_found mute_conv_exists mute_conv_not_found not_implemented : Code
  private_not_friend private_blocked private_duplicate : Code
  group_not_member group_muted group_duplicate : Code
