-- ===== src/Library.antt =====
-- Calls of OpenSSL and of Mbed TLS, which are not part of the repository. An object of OpenSSL is known
-- by its address, and 0 is the null pointer. The calls are listed with what they are given; texts and buffers by bytes.
use sockpp.Prelude.{ℤ, pos, ℕ, List, [], ◌∷◌, Bool, eqb_ℤ, if◌then◌else◌, Option, none, some}

-- Calls of Mbed TLS. A connection object, a configuration, a certificate and a key are known by their
-- addresses.
pub data MbedCall : Type 0 where
  -- Connections
  ssl_init ssl_free ssl_handshake ssl_get_verify_result ssl_close_notify : ℤ → MbedCall
  ssl_get_peer_cert : ℤ → MbedCall
  ssl_setup : ℤ → ℤ → MbedCall
  ssl_set_hostname ssl_write : ℤ → List ℕ → MbedCall
  ssl_set_bio : ℤ → Bool → MbedCall
  ssl_read : ℤ → ℕ → MbedCall
  x509_crt_verify_info : ℕ → MbedCall
  -- The memory for a certificate or a key, and their own calls
  new_cert new_key : MbedCall
  x509_crt_init x509_crt_free pk_init pk_free : ℤ → MbedCall
  x509_crt_parse pk_parse_key : ℤ → List ℕ → MbedCall
  -- Random numbers
  entropy_init ctr_drbg_init ctr_drbg_seed : MbedCall
  -- Configurations
  config_init config_free conf_rng conf_verify : ℤ → MbedCall
  config_defaults conf_authmode : ℤ → ℕ → MbedCall
  conf_ca_chain : ℤ → ℤ → MbedCall
  conf_ca_cb conf_cert_req_ca_list : ℤ → Bool → MbedCall
  conf_own_cert : ℤ → ℤ → ℤ → MbedCall

-- What the reader of the system's root certificates calls: files by their paths, an open directory by
-- its address.
pub data FileCall : Type 0 where
  stat opendir ifstream_open : List ℕ → FileCall
  readdir closedir : ℤ → FileCall
  ifstream_read : List ℕ → ℕ → FileCall
  fnmatch : List ℕ → List ℕ → FileCall

pub data LibraryCall : Type 0 where
  mbed : MbedCall → LibraryCall
  file : FileCall → LibraryCall
  -- The error queue: take the earliest, read the latest, empty it
  err_get_error err_peek_last_error err_clear_error : LibraryCall
  -- Contexts
  ctx_new : ℕ → LibraryCall
  ctx_free ctx_set_default_verify_paths ctx_clear_extra_chain_certs : ℤ → LibraryCall
  ctx_check_private_key : ℤ → LibraryCall
  ctx_set_mode ctx_clear_mode ctx_set_verify : ℤ → ℕ → LibraryCall
  ctx_load_verify_locations : ℤ → Option (List ℕ) → Option (List ℕ) → LibraryCall
  ctx_use_certificate_chain_file ctx_use_private_key_file : ℤ → List ℕ → LibraryCall
  ctx_set_cert_store ctx_use_certificate ctx_add_extra_chain_cert : ℤ → ℤ → LibraryCall
  ctx_use_private_key : ℤ → ℤ → LibraryCall
  ctx_set_cert_verify_callback : ℤ → Bool → LibraryCall
  -- Connections
  ssl_new ssl_free ssl_connect ssl_accept ssl_get_shutdown : ℤ → LibraryCall
  ssl_get1_peer_certificate : ℤ → LibraryCall
  ssl_set_fd : ℤ → ℤ → LibraryCall
  ssl_set_tlsext_host_name ssl_set1_host ssl_write_ex : ℤ → List ℕ → LibraryCall
  ssl_set_mode ssl_clear_mode ssl_read_ex : ℤ → ℕ → LibraryCall
  -- Memory streams, certificates, stores and keys
  bio_new_mem_buf d2i_x509 : List ℕ → LibraryCall
  bio_free pem_read_bio_x509_aux pem_read_bio_x509 pem_read_bio_private_key : ℤ → LibraryCall
  x509_free x509_up_ref store_free key_free i2d_x509 : ℤ → LibraryCall
  store_new : LibraryCall
  store_add_cert : ℤ → ℤ → LibraryCall
  -- The names of certificate authorities that a server sends: the store's objects, and a stack of names
  ctx_get_cert_store store_get0_objects x509_subject_name_dup : ℤ → LibraryCall
  name_stack_new : LibraryCall
  name_stack_push ctx_set_client_ca_list : ℤ → ℤ → LibraryCall
  name_free name_stack_num name_stack_pop_free : ℤ → LibraryCall
  -- The verification of a peer
  x509_verify_cert store_ctx_get0_chain store_ctx_set_error : ℤ → LibraryCall
  x509_cmp : ℤ → ℤ → LibraryCall

-- What the macros on error numbers say: the error is `PEM_R_NO_START_LINE` of the PEM library, or
-- `X509_R_CERT_ALREADY_IN_HASH_TABLE` of the X.509 library.
pub record ErrorNumbers : Type 0 where
  pub is_no_start_line : ℤ → Bool
  pub is_duplicate : ℤ → Bool

-- The references that a program holds to objects of the library. `none` is a misuse: a reference was
-- given up that was not held.
abbrev pub add_ref : ℤ → Option (List ℤ) → Option (List ℤ)
add_ref p none = none
add_ref p (some refs) = if eqb_ℤ p (pos 0) then some refs else some (p ∷ refs)

abbrev pub take_out : ℤ → List ℤ → Option (List ℤ)
take_out p [] = none
take_out p (q ∷ refs) =
    if eqb_ℤ q p
    then some refs
    else elim (take_out p refs) [ none ↦ none | some rest ↦ some (q ∷ rest) ]

-- Freeing the null pointer does nothing.
abbrev pub drop_ref : ℤ → Option (List ℤ) → Option (List ℤ)
drop_ref p none = none
drop_ref p (some refs) = if eqb_ℤ p (pos 0) then some refs else take_out p refs

-- A connection object of Mbed TLS is held from its initialisation until it is freed, a certificate and
-- a key from when there is memory for them.
abbrev pub after_mbed : MbedCall → ℤ → Option (List ℤ) → Option (List ℤ)
after_mbed (MbedCall.ssl_init p) ret refs = add_ref p refs
after_mbed (MbedCall.ssl_free p) ret refs = drop_ref p refs
after_mbed MbedCall.new_cert ret refs = add_ref ret refs
after_mbed MbedCall.new_key ret refs = add_ref ret refs
after_mbed (MbedCall.x509_crt_free p) ret refs = drop_ref p refs
after_mbed (MbedCall.pk_free p) ret refs = drop_ref p refs
after_mbed c ret refs = refs

-- A call that returned `ret`. A store and a list of names go over to the context that they are set
-- for, so does a certificate of the extra chain if it was taken, and a name goes over to the stack that
-- takes it.
abbrev pub after_library : LibraryCall → ℤ → Option (List ℤ) → Option (List ℤ)
after_library (LibraryCall.mbed c) ret refs = after_mbed c ret refs
after_library (LibraryCall.ctx_new m) ret refs = add_ref ret refs
after_library (LibraryCall.ctx_free p) ret refs = drop_ref p refs
after_library (LibraryCall.ssl_new c) ret refs = add_ref ret refs
after_library (LibraryCall.ssl_free p) ret refs = drop_ref p refs
after_library (LibraryCall.ssl_get1_peer_certificate s) ret refs = add_ref ret refs
after_library (LibraryCall.bio_new_mem_buf b) ret refs = add_ref ret refs
after_library (LibraryCall.bio_free p) ret refs = drop_ref p refs
after_library (LibraryCall.pem_read_bio_x509_aux b) ret refs = add_ref ret refs
after_library (LibraryCall.pem_read_bio_x509 b) ret refs = add_ref ret refs
after_library (LibraryCall.pem_read_bio_private_key b) ret refs = add_ref ret refs
after_library (LibraryCall.d2i_x509 b) ret refs = add_ref ret refs
after_library (LibraryCall.x509_free p) ret refs = drop_ref p refs
after_library (LibraryCall.x509_up_ref p) ret refs = add_ref p refs
after_library LibraryCall.store_new ret refs = add_ref ret refs
after_library (LibraryCall.store_free p) ret refs = drop_ref p refs
after_library (LibraryCall.key_free p) ret refs = drop_ref p refs
after_library (LibraryCall.ctx_set_cert_store c p) ret refs = drop_ref p refs
after_library (LibraryCall.ctx_add_extra_chain_cert c p) ret refs =
    if eqb_ℤ ret (pos 1) then drop_ref p refs else refs
after_library (LibraryCall.x509_subject_name_dup p) ret refs = add_ref ret refs
after_library LibraryCall.name_stack_new ret refs = add_ref ret refs
after_library (LibraryCall.name_stack_push s p) ret refs =
    if eqb_ℤ ret (pos 0) then refs else drop_ref p refs
after_library (LibraryCall.name_free p) ret refs = drop_ref p refs
after_library (LibraryCall.ctx_set_client_ca_list c p) ret refs = drop_ref p refs
after_library (LibraryCall.name_stack_pop_free p) ret refs = drop_ref p refs
after_library c ret refs = refs
