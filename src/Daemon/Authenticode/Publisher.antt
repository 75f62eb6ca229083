-- ===== src/Daemon/Authenticode/Publisher.antt =====
-- Whom windows_daemon/authenticode.go accepts as the signer of a program.
use fastflow_client.Base.{ℕ, ◌≡◌, refl, ◌↔◌, Bool, true, Option, none, List, [], ◌∷◌, arith}
use fastflow_client.Base.Calls.{Result, ok, err}
use fastflow_client.Base.Text.{Text, trim_space}
use fastflow_client.Daemon.Os.{Os}
use fastflow_client.Daemon.Acl.{Disk}
use fastflow_client.Daemon.Security.{equal_fold}
use fastflow_client.Daemon.Authenticode.{
  cmsg_signer_cert_info_param, asn_encodings, cert_find_subject_cert, cert_name_simple_display_type,
  cert_query_object_file, cert_query_content_flag_pkcs7_signed, cert_query_format_flag_binary,
  Crypto, Param, compare_subject, read_subject, check_certificate, check_data, check_size,
  check_message, verify_signer_cn,
}

equal_fold_trans :
    (fold : ℕ → ℕ) (a b c : Text)
    → equal_fold fold a b ≡ true
    → equal_fold fold b c ≡ equal_fold fold a c
unfolding equal_fold
equal_fold_trans fold [] [] c h = refl
equal_fold_trans fold [] (y ∷ b) c h = cc
equal_fold_trans fold (x ∷ a) [] c h = cc
equal_fold_trans fold (x ∷ a) (y ∷ b) [] h = refl
equal_fold_trans fold (x ∷ a) (y ∷ b) (z ∷ c) h = ground (arith, equal_fold_trans fold a b c)

module _ (os : Os) (disk : Disk os) (crypto : Crypto os) (path want other : Text) where
  -- The two names are the same up to case and the space around them.
  abbrev same_name : Bool
  same_name = equal_fold os.fold (trim_space want) (trim_space other)

  -- What the check says for the second name, where it accepts the signer under the first.
  abbrev Agrees : (Text → os.State × Option Text) → Type 0
  Agrees check = (check want).1 ≡ none → ((check other).1 ≡ none) ↔ (same_name ≡ true)

  compare_subject-Agrees : (r : os.State × Text) → Agrees (λ w. compare_subject os disk crypto w r)
  compare_subject-Agrees (s, subject) h =
      ground
        (arith, equal_fold_trans os.fold (trim_space subject) (trim_space want) (trim_space other))

  read_subject-Agrees :
      (cert : ℕ) (r : os.State × ℕ) → Agrees (λ w. read_subject os disk crypto path w cert r)
  read_subject-Agrees cert (s, n) h =
      ground (arith, compare_subject-Agrees (crypto.name cert cert_name_simple_display_type n s))

  check_certificate-Agrees :
      (r : os.State × ℕ) → Agrees (λ w. check_certificate os disk crypto path w r)
  check_certificate-Agrees (s, cert) h =
      ground
        (arith, read_subject-Agrees cert (crypto.name_size cert cert_name_simple_display_type s))

  check_data-Agrees :
      (st : ℕ) (r : os.State × Param (List ℕ)) → Agrees (λ w. check_data os disk crypto path w st r)
  check_data-Agrees st (s, info) h = ground (
    arith,
    check_certificate-Agrees
        (crypto.find_certificate st asn_encodings cert_find_subject_cert info.value s),
  )

  check_size-Agrees :
      (st m : ℕ) (r : os.State × Param ℕ) → Agrees (λ w. check_size os disk crypto path w st m r)
  check_size-Agrees st m (s, size) h =
      ground (
        arith,
        check_data-Agrees st (crypto.message_data m cmsg_signer_cert_info_param size.value s),
      )

  check_message-Agrees :
      (r : os.State × Result (ℕ × ℕ)) → Agrees (λ w. check_message os disk crypto path w r)
  check_message-Agrees (s, err e) h = cc
  check_message-Agrees (s, ok (st, m)) h =
      check_size-Agrees st m (crypto.message_size m cmsg_signer_cert_info_param s) h

  -- A program that `verifySignerCN` accepts under a name, it accepts in the same state under another
  -- name exactly if the two are the same up to the case of letters and the space around them.
  pub verify_signer_cn_unique :
      (s : os.State)
      → (verify_signer_cn os disk crypto path want s).1 ≡ none
      → ((verify_signer_cn os disk crypto path other s).1 ≡ none)
        ↔ (equal_fold os.fold (trim_space want) (trim_space other) ≡ true)
  unfolding verify_signer_cn
  verify_signer_cn_unique s h = ground (
    arith,
    check_message-Agrees (
        crypto.query_object cert_query_object_file path cert_query_content_flag_pkcs7_signed
          cert_query_format_flag_binary s),
  )
