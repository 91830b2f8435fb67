-- ===== src/Host/Errors.antt =====
-- The errors that the source throws. ErrorCode is packages/core/src/exception/errorCode.ts.
use cot_server.Base.{ℕ, ◌≡◌, refl, ◌⊎◌, inl, inr}

-- The entries of `ErrorCode`.
pub data ErrorCode : Type 0 where
  system_busy invalid_auth : ErrorCode
  auth_info_exception_invalid_address auth_info_exception_unknow_chain : ErrorCode
  auth_info_exception_invalid_sign device_or_address_be_use : ErrorCode
  invite_code_error can_not_auth invite_code_already_binded : ErrorCode
  address_not_auth can_not_invite_yourself : ErrorCode
  recharge_create_and_broadcast_error recharge_tran_sign_missing : ErrorCode
  recharge_not_support_chain get_pmc_chain_block_error : ErrorCode
  withdraw_times_be_not_enough withdraw_limit_be_not_enough : ErrorCode
  each_withdraw_range_error withdraw_close_error : ErrorCode
  admin_invalid_auth admin_login_name_error admin_password_error : ErrorCode
  admin_old_password_error only_super_admin_add_user : ErrorCode

-- The `code` field of each entry.
unfoldable pub code : ErrorCode → ℕ
code system_busy = 10000
code invalid_auth = 10100
code auth_info_exception_invalid_address = 10101
code auth_info_exception_unknow_chain = 10102
code auth_info_exception_invalid_sign = 10103
code device_or_address_be_use = 10104
code invite_code_error = 10200
code can_not_auth = 10201
code invite_code_already_binded = 10202
code address_not_auth = 10203
code can_not_invite_yourself = 10204
code recharge_create_and_broadcast_error = 10300
code recharge_tran_sign_missing = 10301
code recharge_not_support_chain = 10302
code get_pmc_chain_block_error = 10303
code withdraw_times_be_not_enough = 10400
code withdraw_limit_be_not_enough = 10401
code each_withdraw_range_error = 10402
code withdraw_close_error = 10403
code admin_invalid_auth = 900000
code admin_login_name_error = 900001
code admin_password_error = 900002
code admin_old_password_error = 900002
code only_super_admin_add_user = 900002

-- One constructor for each kind of `throw` in the source; the texts are left out. `host_error` is
-- an error that a call to the outside ended with.
pub data Error : Type 0 where
  response_error : ErrorCode → Error
  host_error : ℕ → Error
  not_a_bigint division_by_zero undefined_value : Error
  wrong_state wrong_record_state : Error
  config_chain_error config_asset_error not_support_chain : Error
  receiver_undefined recharge_closed eth_closed bsc_closed tron_closed : Error
  detail_error deposit_mismatch contract_empty contract_mismatch : Error
  balance_too_small update_trans_failed update_order_failed : Error
  tx_id_mismatch not_injected not_support_recharge_type : Error
  remark_undefined redemption_closed wallet_amount_not_positive : Error
  not_platform_address less_than_min more_than_max asset_type_wrong : Error
  trans_undefined address_fail data_verify_fail timestamp_expired not_in_auth_infos : Error
  not_bcf_address wrong_worker decrypt_fail invalid_fix_type : Error
  config_validate_error upgrade_method_missing : Error

pub data Result {ℓ} (Value : Type ℓ) : Type ℓ where
  ok : Value → Result Value
  err : Error → Result Value

infixl 5 ◌then◌
abbrev pub ◌then◌ : {A B : Type 0} → Result A → (A → Result B) → Result B
ok a then f = f a
err e then f = err e

-- To split on a computed result and keep the equation.
pub Result-cases {ℓ} :
    {A : Type ℓ} (r : Result A) → ((a : A) × (r ≡ ok a)) ⊎ ((e : Error) × (r ≡ err e))
Result-cases (ok a) = inl (a, refl)
Result-cases (err e) = inr (e, refl)
