-- ===== src/Daemon/Authenticode/Release.antt =====
-- windows_daemon/authenticode.go gives back what it takes of Windows.
use fastflow_client.Base.{
  ℕ, ◌≡◌, refl, inl, inr, ◌||◌, List, [], ◌∷◌, ◌==◌, leb, Bool-cases, Option-cases, if◌then◌else◌,
  if-true, if-false,
}
use fastflow_client.Base.Calls.{Result, ok, err}
use fastflow_client.Base.Text.{Text}
use fastflow_client.Daemon.Os.{Os}
use fastflow_client.Daemon.Acl.{Disk}
use fastflow_client.Daemon.Handles.{
  Resource, trust, message, store, certificate, Owing, Keeps, Takes, Gives, Owing-start, Owing-none,
  Owing-keep, Owing-take, Owing-give,
}
use fastflow_client.Daemon.Authenticode.{
  Crypto, Param, Guid, WintrustData, wintrust_action_verify, wtd_state_action_verify,
  wtd_state_action_close, cmsg_signer_cert_info_param, asn_encodings, cert_find_subject_cert,
  cert_name_simple_display_type, cert_query_object_file, cert_query_content_flag_pkcs7_signed,
  cert_query_format_flag_binary, trust_data, closing_data, judge_trust, verify_authenticode,
  read_subject, check_certificate, check_data, check_size, check_message, verify_signer_cn,
}

abbrev AfterQuery :
    (os : Os) → (os.State → Resource → ℕ) → os.State → os.State × Result (ℕ × ℕ) → Type 0
AfterQuery os held s (t, err e) = Keeps held s t
AfterQuery os held s (t, ok (st, m)) = Owing held ((store, st) ∷ (message, m) ∷ []) s t

abbrev AfterFind : (os : Os) → (os.State → Resource → ℕ) → os.State → os.State × ℕ → Type 0
AfterFind os held s (t, cert) =
    if cert == 0 then Keeps held s t else Takes held (certificate, cert) s t

-- Windows as documented, on handles: `WinVerifyTrust` hands out state data whatever its result is, a
-- query that succeeds hands out a store and a message, a search that succeeds a certificate, the
-- other calls none, and each is given back by the call for its kind.
pub record IsCounted (os : Os) (crypto : Crypto os) (held : os.State → Resource → ℕ) : Type 0 where
  pub verify_trust :
      (id : Guid) (wd : WintrustData) (s : os.State)
      → wd.state_action ≡ wtd_state_action_verify
      → Takes held
          (trust, (crypto.win_verify_trust id wd s).1.1)
          s
          (crypto.win_verify_trust id wd s).0
  pub query_object :
      (kind : ℕ) (path : Text) (content format : ℕ) (s : os.State)
      → AfterQuery os held s (crypto.query_object kind path content format s)
  pub message_size : (m p : ℕ) (s : os.State) → Keeps held s (crypto.message_size m p s).0
  pub message_data : (m p n : ℕ) (s : os.State) → Keeps held s (crypto.message_data m p n s).0
  pub find_certificate :
      (st encoding search : ℕ) (info : List ℕ) (s : os.State)
      → AfterFind os held s (crypto.find_certificate st encoding search info s)
  pub name_size : (c kind : ℕ) (s : os.State) → Keeps held s (crypto.name_size c kind s).0
  pub name : (c kind n : ℕ) (s : os.State) → Keeps held s (crypto.name c kind n s).0
  pub close_trust :
      (id : Guid) (wd : WintrustData) (s : os.State)
      → wd.state_action ≡ wtd_state_action_close
      → Gives held (trust, wd.state_data) s (crypto.win_verify_trust id wd s).0
  pub close_message : (h : ℕ) (s : os.State) → Gives held (message, h) s (crypto.close_message h s)
  pub close_store : (h : ℕ) (s : os.State) → Gives held (store, h) s (crypto.close_store h s)
  pub free_certificate :
      (h : ℕ) (s : os.State) → Gives held (certificate, h) s (crypto.free_certificate h s)

module _ (os : Os) (disk : Disk os) (crypto : Crypto os) (held : os.State → Resource → ℕ)
    (law : IsCounted os crypto held) (path want : Text) (start : os.State) where
  abbrev Owes : List Resource → os.State → Type 0
  Owes rs t = Owing held rs start t

  Owes-keep : (rs : List Resource) (t u : os.State) → Owes rs t → Keeps held t u → Owes rs u
  Owes-keep rs t u o k = Owing-keep held rs start t u o k

  Owes-give :
      (r : Resource) (rs : List Resource) (t u : os.State)
      → Owes (r ∷ rs) t
      → Gives held r t u
      → Owes rs u
  Owes-give r rs t u o g = Owing-give held r rs start t u o g

  read_subject-Owes :
      (rs : List Resource) (cert n : ℕ) (t : os.State)
      → Owes rs t
      → Owes rs (read_subject os disk crypto path want cert (t, n)).0
  read_subject-Owes rs cert n t o = elim (Bool-cases (leb n 1)) [
    | inl e ↦ rw e o
    | inr e ↦ rw e (
        Owes-keep rs t (crypto.name cert cert_name_simple_display_type n t).0 o
          (law.name cert cert_name_simple_display_type n t))
  ]

  check_certificate-Owes :
      (rs : List Resource) (t : os.State) (r : os.State × ℕ)
      → Owes rs t
      → AfterFind os held t r
      → Owes rs (check_certificate os disk crypto path want r).0
  check_certificate-Owes rs t (u, cert) o f = elim (Bool-cases (cert == 0)) [
    | inl e ↦ rw e (Owes-keep rs t u o (if-true _ _ (cert == 0) e f))
    | inr e ↦
        let inside =
          Owing-take held (certificate, cert) rs start t u o (if-false _ _ (cert == 0) e f) in
        let named =
          Owes-keep ((certificate, cert) ∷ rs) u
            (crypto.name_size cert cert_name_simple_display_type u).0 inside
            (law.name_size cert cert_name_simple_display_type u) in
        let read =
          read_subject os disk crypto path want cert
            (crypto.name_size cert cert_name_simple_display_type u) in
        rw e (
          Owes-give (certificate, cert) rs read.0 (crypto.free_certificate cert read.0)
            (read_subject-Owes ((certificate, cert) ∷ rs) cert
              (crypto.name_size cert cert_name_simple_display_type u).1
              (crypto.name_size cert cert_name_simple_display_type u).0 named)
            (law.free_certificate cert read.0))
  ]

  check_data-Owes :
      (rs : List Resource) (st : ℕ) (t : os.State) (info : Param (List ℕ))
      → Owes rs t
      → Owes rs (check_data os disk crypto path want st (t, info)).0
  check_data-Owes rs st t info o = elim (Bool-cases (info.result == 0)) [
    | inl e ↦ rw e o
    | inr e ↦ rw e (
        check_certificate-Owes rs t
          (crypto.find_certificate st asn_encodings cert_find_subject_cert info.value t) o
          (law.find_certificate st asn_encodings cert_find_subject_cert info.value t))
  ]

  check_size-Owes :
      (rs : List Resource) (st m : ℕ) (t : os.State) (size : Param ℕ)
      → Owes rs t
      → Owes rs (check_size os disk crypto path want st m (t, size)).0
  check_size-Owes rs st m t size o = elim (Bool-cases (size.result == 0 || size.value == 0)) [
    | inl e ↦ rw e o
    | inr e ↦ rw e (
        check_data-Owes rs st (crypto.message_data m cmsg_signer_cert_info_param size.value t).0
          (crypto.message_data m cmsg_signer_cert_info_param size.value t).1
          (Owes-keep rs t (crypto.message_data m cmsg_signer_cert_info_param size.value t).0 o
            (law.message_data m cmsg_signer_cert_info_param size.value t)))
  ]

  check_message-Owes :
      (r : os.State × Result (ℕ × ℕ))
      → AfterQuery os held start r
      → Owes [] (check_message os disk crypto path want r).0
  check_message-Owes (t, err e) k = Owes-keep [] start t (Owing-start held start) k
  check_message-Owes (t, ok (st, m)) o =
      let sized = crypto.message_size m cmsg_signer_cert_info_param t in
      let checked = check_size os disk crypto path want st m sized in
      let closed = crypto.close_store st checked.0 in
      let both = (store, st) ∷ (message, m) ∷ [] in
      Owes-give (message, m) [] closed (crypto.close_message m closed)
        (Owes-give (store, st) ((message, m) ∷ []) checked.0 closed
          (check_size-Owes both st m sized.0 sized.1
            (Owes-keep both t sized.0 o (law.message_size m cmsg_signer_cert_info_param t)))
          (law.close_store st checked.0))
        (law.close_message m closed)

  pub verify_signer_cn-Keeps : Keeps held start (verify_signer_cn os disk crypto path want start).0
  unfolding verify_signer_cn
  verify_signer_cn-Keeps = elim (Option-cases (disk.utf16 path)) [
    | inl e ↦
        rw (verify_signer_cn, e)
          (Owing-none held start
            (check_message os disk crypto path want (
              crypto.query_object cert_query_object_file path cert_query_content_flag_pkcs7_signed
                cert_query_format_flag_binary start)).0
            (check_message-Owes
              (crypto.query_object cert_query_object_file path cert_query_content_flag_pkcs7_signed
                cert_query_format_flag_binary start)
              (law.query_object cert_query_object_file path cert_query_content_flag_pkcs7_signed
                cert_query_format_flag_binary start)))
    | inr (m, e) ↦ rw (verify_signer_cn, e) (λ k. refl)
  ]

  judge_trust-Owes :
      (r : os.State × (ℕ × ℕ))
      → Takes held (trust, r.1.1) start r.0
      → Owes [] (judge_trust os disk crypto path r).0
  judge_trust-Owes (t, (r, h)) took =
      Owes-give (trust, h) [] t
        (crypto.win_verify_trust wintrust_action_verify (closing_data path h) t).0
        (Owing-take held (trust, h) [] start start t (Owing-start held start) took)
        (law.close_trust wintrust_action_verify (closing_data path h) t refl)

  pub verify_authenticode-Keeps : Keeps held start (verify_authenticode os disk crypto path start).0
  unfolding verify_authenticode
  verify_authenticode-Keeps = elim (Option-cases (disk.utf16 path)) [
    | inl e ↦
        rw (verify_authenticode, e)
          (Owing-none held start
            (judge_trust os disk crypto path
              (crypto.win_verify_trust wintrust_action_verify (trust_data path) start)).0
            (judge_trust-Owes
              (crypto.win_verify_trust wintrust_action_verify (trust_data path) start)
              (law.verify_trust wintrust_action_verify (trust_data path) start refl)))
    | inr (m, e) ↦ rw (verify_authenticode, e) (λ k. refl)
  ]
