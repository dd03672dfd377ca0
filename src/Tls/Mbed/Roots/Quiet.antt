-- ===== src/Tls/Mbed/Roots/Quiet.antt =====
-- Reading the system's root certificates changes no reference to an object of a library.
use sockpp.Prelude.{
  ℤ, pos, ℕ, zero, suc, eqb_ℤ, List, [], ◌++◌, ◌≡◌, refl, ◌∙◌, Bool, true, false, not, ◌&&◌, Option,
  arith, Bool-cases, Option-cases, inl, inr,
}
use sockpp.Library.{FileCall}
use sockpp.System.{Os, World, Action, perform}
use sockpp.System.Held.{objects}
use sockpp.Tls.Mbed.Socket.{◌>>=?◌}
use sockpp.Tls.Mbed.Context.Lifetime.{IsQuiet}
use sockpp.Tls.Mbed.Roots.{
  certs_dir, certs_file, newline, last_of, file, copy_loop, end_line, read_file, is_cert_name,
  read_if, dir_loop, read_dir, read_system_root_certs, read_text, is_dir,
}

abbrev Keeps {ℓ} : {A : Type ℓ} → Action World A → Type 0
Keeps x = (w : World) → objects (x w).1.history ≡ objects w.history

>>=?-Keeps {ℓ κ} :
    {A : Type ℓ} {B : Type κ} (x : Action World (Option A)) (f : A → Action World (Option B))
    → Keeps x
    → ((a : A) → Keeps (f a))
    → Keeps (x >>=? f)
>>=?-Keeps x f first then_f w = elim (Option-cases (x w).0) [
  | inl out ↦ rw (out, ◌>>=?◌) (first w)
  | inr (a, e) ↦ rw (e, ◌>>=?◌) (then_f a (x w).1 ∙ first w)
]

module _ ⦃os : Os⦄ where
  file-Keeps : (c : FileCall) → Keeps (file c)
  unfolding objects perform
  file-Keeps c w = refl

  copy_loop-Keeps :
      (fuel : ℕ) (path : List ℕ) (good : Bool) (certs : List ℕ) (last_char : ℕ)
      → Keeps (copy_loop fuel path good certs last_char)
  unfolding copy_loop
  copy_loop-Keeps zero path good certs last_char w = refl
  copy_loop-Keeps (suc fuel) path false certs last_char w = refl
  copy_loop-Keeps (suc fuel) path true certs last_char w =
      let c = FileCall.ifstream_read path 1024 in
      let (r, w') = file c w in
      copy_loop-Keeps fuel path (not (eqb_ℤ r.ret (pos 0))) (certs ++ r.bytes)
        (last_of last_char r.bytes) w'
      ∙ file-Keeps c w

  end_line-Keeps : (t : List ℕ × ℕ) → Keeps (end_line t)
  unfolding end_line
  end_line-Keeps (certs, c) w = refl

  read_file-Keeps : (fuel : ℕ) (path certs : List ℕ) → Keeps (read_file fuel path certs)
  unfolding read_file
  read_file-Keeps fuel path certs w =
      let (r, w₁) = file (FileCall.ifstream_open path) w in
      let good = not (eqb_ℤ r.ret (pos 0)) in
      >>=?-Keeps (copy_loop fuel path good certs newline) end_line
        (copy_loop-Keeps fuel path good certs newline) end_line-Keeps w₁
      ∙ file-Keeps (FileCall.ifstream_open path) w

  read_if-Keeps :
      (wanted : Bool) (fuel : ℕ) (path certs : List ℕ) → Keeps (read_if wanted fuel path certs)
  unfolding read_if
  read_if-Keeps false fuel path certs w = refl
  read_if-Keeps true fuel path certs w = read_file-Keeps fuel path certs w

  is_cert_name-Keeps : (name : List ℕ) → Keeps (is_cert_name name)
  unfolding is_cert_name objects
  is_cert_name-Keeps name w = ground arith

  dir_loop-Keeps : (fuel : ℕ) (dir : ℤ) (certs : List ℕ) → Keeps (dir_loop fuel dir certs)
  unfolding dir_loop
  dir_loop-Keeps zero dir certs w = refl
  dir_loop-Keeps (suc fuel) dir certs w =
      let (ent, w₁) = file (FileCall.readdir dir) w in
      let (wanted, w₂) = is_cert_name (ent.bytes) w₁ in
      let listed = file-Keeps (FileCall.readdir dir) w in
      elim (Bool-cases (eqb_ℤ ent.ret (pos 0))) [
        | inl last ↦ rw last listed
        | inr more ↦ rw more (
            >>=?-Keeps (read_if wanted fuel (certs_dir ++ ent.bytes) certs) (dir_loop fuel dir)
              (read_if-Keeps wanted fuel (certs_dir ++ ent.bytes) certs) (dir_loop-Keeps fuel dir)
              w₂
            ∙ is_cert_name-Keeps (ent.bytes) w₁
            ∙ listed)
      ]

  read_dir-Keeps : (fuel : ℕ) → Keeps (read_dir fuel)
  unfolding read_dir objects
  read_dir-Keeps fuel w =
      let (dir, w₁) = file (FileCall.opendir certs_dir) w in
      elim (Bool-cases (eqb_ℤ dir.ret (pos 0))) [
        | inl shut ↦ rw shut refl
        | inr listed ↦ rw listed (dir_loop-Keeps fuel dir.ret [] w₁)
      ]

  -- So the reader may be used by a context.
  pub read_text-IsQuiet : (fuel : ℕ) → IsQuiet (read_text fuel)
  unfolding read_text read_system_root_certs objects
  read_text-IsQuiet fuel w =
      let (d, w₁) = file (FileCall.stat certs_dir) w in
      let (f, w₂) = file (FileCall.stat (certs_dir ++ certs_file)) w₁ in
      elim (Bool-cases (eqb_ℤ d.ret (pos 0) && is_dir d)) [
        | inl there ↦ elim (Bool-cases (eqb_ℤ f.ret (pos 0))) [
          | inl one ↦ rw (there, one) (read_file-Keeps fuel (certs_dir ++ certs_file) [] w₂)
          | inr many ↦ rw (there, many) (read_dir-Keeps fuel w₂)
        ]
        | inr absent ↦ rw absent refl
      ]
