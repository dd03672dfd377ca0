-- ===== src/Tls/Mbed/Roots.antt =====
-- `read_system_root_certs` of src/tls/mbedtls_context.cpp, on Linux: the text of the file with all
-- certificates, or of all files in the directory. The loops take fuel, and `none` means that it ran out.
pub mod Lines
pub mod Quiet
pub mod Ends
use Prim.Native.Nat.{bit_and}
use sockpp.Prelude.{
  ℤ, pos, pos_part, ℕ, zero, suc, ◌==◌, eqb_ℤ, List, [], ◌∷◌, ◌++◌, Bool, true, false, not, ◌&&◌,
  if◌then◌else◌, Option, none, some,
}
use sockpp.Prelude.Text.{codes}
use sockpp.Library.{LibraryCall, FileCall}
use sockpp.System.{Os, World, Call, Reply, Action, perform, pure, ◌>>=◌, ◌>>◌}
use sockpp.Socket.{field_at}
use sockpp.Tls.Mbed.Socket.{◌>>=?◌}

-- `CERTS_DIR` and `CERTS_FILE`
abbrev pub certs_dir : List ℕ
certs_dir = codes "/etc/ssl/certs/"

abbrev pub certs_file : List ℕ
certs_file = codes "ca-certificates.crt"

-- `'\n'`
abbrev pub newline : ℕ
newline = 10

-- `buf[n - 1]` if something was read, and else what stood in `last_char`
abbrev pub last_of : ℕ → List ℕ → ℕ
last_of d [] = d
last_of d (c ∷ cs) = last_of c cs

-- `S_ISDIR(s.st_mode)`, of the structure's first field
abbrev pub is_dir : Reply → Bool
is_dir r = bit_and (pos_part (field_at 0 (pos 0) r.ints)) 0xf000 == 0x4000

module _ ⦃os : Os⦄ where
  abbrev pub file : FileCall → Action World Reply
  file c = perform (Call.library (LibraryCall.file c))

  -- The loop of `read_file`, by whether the stream is good; with `certs` so far, and `last_char`
  unfoldable pub copy_loop : ℕ → List ℕ → Bool → List ℕ → ℕ → Action World (Option (List ℕ × ℕ))
  unfolding perform
  copy_loop zero path good certs last_char w = (none, w)
  copy_loop (suc fuel) path false certs last_char w = (some (certs, last_char), w)
  copy_loop (suc fuel) path true certs last_char w =
      let (r, w') = file (FileCall.ifstream_read path 1024) w in
      copy_loop fuel path (not (eqb_ℤ r.ret (pos 0))) (certs ++ r.bytes) (last_of last_char r.bytes)
        w'

  unfoldable pub end_line : List ℕ × ℕ → Action World (Option (List ℕ))
  end_line (certs, last_char) =
      pure (some (if last_char == newline then certs else certs ++ newline ∷ []))

  -- `read_file(file)`: what is in `certs` then
  unfoldable pub read_file : ℕ → List ℕ → List ℕ → Action World (Option (List ℕ))
  unfolding perform copy_loop end_line
  read_file fuel path certs = do
    r ← file (FileCall.ifstream_open path)
    copy_loop fuel path (not (eqb_ℤ r.ret (pos 0))) certs newline >>=? end_line

  -- Whether the name is one of a certificate
  unfoldable pub is_cert_name : List ℕ → Action World Bool
  unfolding perform
  is_cert_name name = do
    pem ← file (FileCall.fnmatch (codes "?*.pem") name)
    if eqb_ℤ pem.ret (pos 0)
        then pure true
        else (do crt ← file (FileCall.fnmatch (codes "?*.crt") name); pure (eqb_ℤ crt.ret (pos 0)))

  unfoldable pub read_if : Bool → ℕ → List ℕ → List ℕ → Action World (Option (List ℕ))
  unfolding read_file
  read_if false fuel path certs = pure (some certs)
  read_if true fuel path certs = read_file fuel path certs

  -- The loop over the directory, by whether there is an entry, and its name
  unfoldable pub dir_loop : ℕ → ℤ → List ℕ → Action World (Option (List ℕ))
  unfolding perform is_cert_name read_if
  dir_loop zero dir certs w = (none, w)
  dir_loop (suc fuel) dir certs w =
      let (ent, w₁) = file (FileCall.readdir dir) w in
      let (wanted, w₂) = is_cert_name (ent.bytes) w₁ in
      let rest = (read_if wanted fuel (certs_dir ++ ent.bytes) certs >>=? dir_loop fuel dir) w₂ in
      if eqb_ℤ ent.ret (pos 0) then (some certs, w₁) else rest

  unfoldable pub read_dir : ℕ → Action World (Option (List ℕ))
  unfolding perform dir_loop
  read_dir fuel = do
    dir ← file (FileCall.opendir certs_dir)
    if eqb_ℤ dir.ret (pos 0)
        then pure (some [])
        else (do certs ← dir_loop fuel dir.ret []; file (FileCall.closedir dir.ret); pure certs)

  unfoldable pub read_system_root_certs : ℕ → Action World (Option (List ℕ))
  unfolding perform read_dir read_file
  read_system_root_certs fuel = do
    d ← file (FileCall.stat certs_dir)
    if eqb_ℤ d.ret (pos 0) && is_dir d
        then (do
          f ← file (FileCall.stat (certs_dir ++ certs_file))
          if eqb_ℤ f.ret (pos 0)
              then read_file fuel (certs_dir ++ certs_file) []
              else read_dir fuel)
        else pure (some [])

  -- The text as the context gets it
  unfoldable pub read_text : ℕ → Action World (List ℕ)
  unfolding read_system_root_certs
  read_text fuel = do
    text ← read_system_root_certs fuel
    pure (elim text [ none ↦ [] | some certs ↦ certs ])
