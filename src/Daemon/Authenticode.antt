-- ===== src/Daemon/Authenticode.antt =====
-- windows_daemon/authenticode.go: the signature of a program, and the name of its signer. What
-- wintrust.dll and crypt32.dll do is the parameter `Crypto`.
pub mod Release
pub mod Publisher
use fastflow_client.Base.{
  ℕ, ◌+◌, ◌/◌, ◌%◌, ◌^◌, ◌||◌, Option, none, some, List, [], ◌∷◌, ◌++◌, if◌then◌else◌, ◌==◌, leb,
}
use fastflow_client.Base.Calls.{Result, ok, err}
use fastflow_client.Base.Text.{Text, codes, trim_space}
use fastflow_client.Daemon.Os.{Os, Action}
use fastflow_client.Daemon.Acl.{Disk}
use fastflow_client.Daemon.Security.{hex_encode, equal_fold}
use fastflow_client.Daemon.Handles.{deferring}

-- What a call of `CryptMsgGetParam` leaves: its result, what it has written, and the last error.
pub record Param (A : Type 0) : Type 0 where
  pub result : ℕ
  pub value : A
  pub last_error : Text

-- WINTRUST_ACTION_GENERIC_VERIFY_V2, the bytes of its last field one by one.
pub record Guid : Type 0 where
  pub data_1 : ℕ
  pub data_2 : ℕ
  pub data_3 : ℕ
  pub data_4 : List ℕ

abbrev pub wintrust_action_verify : Guid
wintrust_action_verify = record {
  data_1 = 0x00aac56b;
  data_2 = 0xcd44;
  data_3 = 0x11d0;
  data_4 = 0x8c ∷ 0xc2 ∷ 0x00 ∷ 0xc0 ∷ 0x4f ∷ 0xc2 ∷ 0x95 ∷ 0xee ∷ [];
}

abbrev pub wtd_ui_none : ℕ
wtd_ui_none = 2

abbrev pub wtd_revoke_none : ℕ
wtd_revoke_none = 0

abbrev pub wtd_choice_file : ℕ
wtd_choice_file = 1

abbrev pub wtd_state_action_verify : ℕ
wtd_state_action_verify = 1

abbrev pub wtd_state_action_close : ℕ
wtd_state_action_close = 2

abbrev pub wtd_safe_advanced_flags : ℕ
wtd_safe_advanced_flags = 0x00000100

-- The fields of `wintrustData` that the program sets, the path of `wintrustFileInfo` among them, and
-- the state data that Windows sets. The others are zero.
pub record WintrustData : Type 0 where
  pub ui_choice : ℕ
  pub revocation_checks : ℕ
  pub union_choice : ℕ
  pub file_path : Text
  pub state_action : ℕ
  pub state_data : ℕ
  pub prov_flags : ℕ

abbrev pub cert_query_object_file : ℕ
cert_query_object_file = 0x00000001

abbrev pub cert_query_content_flag_pkcs7_signed : ℕ
cert_query_content_flag_pkcs7_signed = 0x00000400

abbrev pub cert_query_format_flag_binary : ℕ
cert_query_format_flag_binary = 0x00000002

abbrev pub cmsg_signer_cert_info_param : ℕ
cmsg_signer_cert_info_param = 34

abbrev pub cert_find_subject_cert : ℕ
cert_find_subject_cert = 0x000B0000

-- `x509AsnEncoding|pkcs7AsnEncoding`, two different bits.
abbrev pub asn_encodings : ℕ
asn_encodings = 0x00000001 + 0x00010000

abbrev pub cert_name_simple_display_type : ℕ
cert_name_simple_display_type = 4

pub record Crypto (os : Os) : Type 0 where
  -- `WinVerifyTrust`: its result, and the state data that the structure has afterwards.
  pub win_verify_trust : Guid → WintrustData → os.State → os.State × (ℕ × ℕ)
  -- `CryptQueryObject`, with the kind of the object, the path, and the flags of the content and of
  -- the format: the store and the message.
  pub query_object : ℕ → Text → ℕ → ℕ → os.State → os.State × Result (ℕ × ℕ)
  -- `CryptMsgGetParam`, of a message and a parameter: without a buffer, and with one of that size.
  pub message_size : ℕ → ℕ → os.State → os.State × Param ℕ
  pub message_data : ℕ → ℕ → ℕ → os.State → os.State × Param (List ℕ)
  -- `CertFindCertificateInStore`, of a store, with the encoding, the search and what is searched.
  pub find_certificate : ℕ → ℕ → ℕ → List ℕ → os.State → os.State × ℕ
  -- `CertGetNameStringW`, of a certificate and a kind of name, in the same two ways.
  pub name_size : ℕ → ℕ → os.State → os.State × ℕ
  pub name : ℕ → ℕ → ℕ → os.State → os.State × Text
  pub close_message : ℕ → os.State → os.State
  pub close_store : ℕ → os.State → os.State
  pub free_certificate : ℕ → os.State → os.State

-- The structure for the first call.
abbrev pub trust_data : Text → WintrustData
trust_data path = record {
  ui_choice = wtd_ui_none;
  revocation_checks = wtd_revoke_none;
  union_choice = wtd_choice_file;
  file_path = path;
  state_action = wtd_state_action_verify;
  state_data = 0;
  prov_flags = wtd_safe_advanced_flags;
}

-- And for the second one.
abbrev pub closing_data : Text → ℕ → WintrustData
closing_data path h = record (trust_data path) {
  state_action = wtd_state_action_close;
  state_data = h;
}

-- `%08x` of `uint32(r)`
unfoldable pub hex_word : ℕ → Text
hex_word r = hex_encode (r / 2 ^ 24 % 256 ∷ r / 2 ^ 16 % 256 ∷ r / 2 ^ 8 % 256 ∷ r % 256 ∷ [])

module _ (os : Os) (disk : Disk os) (crypto : Crypto os) where
  abbrev pub judge_trust : Text → os.State × (ℕ × ℕ) → os.State × Option Text
  judge_trust path (s, (r, h)) = (
    (crypto.win_verify_trust wintrust_action_verify (closing_data path h) s).0,
    if r == 0
        then none
        else some (
            codes "WinVerifyTrust failed (0x" ++ (hex_word r ++ (codes ") for " ++ os.quote path))),
  )

  unfoldable pub verify_authenticode : Text → Action os
  unfolding hex_word
  verify_authenticode path s = elim (disk.utf16 path) [
    | some m ↦ (s, some m)
    | none ↦ judge_trust path (crypto.win_verify_trust wintrust_action_verify (trust_data path) s)
  ]

  abbrev pub compare_subject : Text → os.State × Text → os.State × Option Text
  compare_subject want (s, subject) = (
    s,
    if equal_fold os.fold (trim_space subject) (trim_space want)
        then none
        else some (
            codes "client signed by "
            ++ (os.quote subject ++ (codes ", expected " ++ os.quote want))),
  )

  abbrev pub read_subject : Text → Text → ℕ → os.State × ℕ → os.State × Option Text
  read_subject path want cert (s, n) =
      if leb n 1
      then (s, some (codes "empty signer subject for " ++ os.quote path))
      else compare_subject want (crypto.name cert cert_name_simple_display_type n s)

  abbrev pub check_certificate : Text → Text → os.State × ℕ → os.State × Option Text
  check_certificate path want (s, cert) =
      if cert == 0
      then (s, some (codes "signer certificate not found for " ++ os.quote path))
      else deferring (crypto.free_certificate cert)
          (read_subject path want cert (crypto.name_size cert cert_name_simple_display_type s))

  abbrev pub check_data : Text → Text → ℕ → os.State × Param (List ℕ) → os.State × Option Text
  check_data path want store (s, info) =
      if info.result == 0
      then (s, some (codes "CryptMsgGetParam(data): " ++ info.last_error))
      else check_certificate path want
          (crypto.find_certificate store asn_encodings cert_find_subject_cert info.value s)

  abbrev pub check_size : Text → Text → ℕ → ℕ → os.State × Param ℕ → os.State × Option Text
  check_size path want store message (s, size) =
      if size.result == 0 || size.value == 0
      then (s, some (codes "CryptMsgGetParam(size): " ++ size.last_error))
      else check_data path want store
          (crypto.message_data message cmsg_signer_cert_info_param size.value s)

  -- `defer` closes the store before the message.
  abbrev pub check_message : Text → Text → os.State × Result (ℕ × ℕ) → os.State × Option Text
  check_message path want (s, err e) =
      (s, some (codes "CryptQueryObject(" ++ (os.quote path ++ (codes "): " ++ e))))
  check_message path want (s, ok (store, message)) = deferring (crypto.close_message message) (
      deferring (crypto.close_store store) (
        check_size path want store message
          (crypto.message_size message cmsg_signer_cert_info_param s)))

  unfoldable pub verify_signer_cn : Text → Text → Action os
  unfolding equal_fold trim_space
  verify_signer_cn path want s = elim (disk.utf16 path) [
    | some m ↦ (s, some m)
    | none ↦ check_message path want (
        crypto.query_object cert_query_object_file path cert_query_content_flag_pkcs7_signed
          cert_query_format_flag_binary s)
  ]
