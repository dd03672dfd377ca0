-- ===== src/Tls/Mbed/Roots/Lines.antt =====
-- The text of the system's root certificates ends each file with a line feed.
use mathlib.Core.Path.{subst}
use sockpp.Prelude.{
  ℤ, pos, ℕ, zero, suc, ◌==◌, eqb_ℤ, List, [], ◌∷◌, ◌++◌, ◌≡◌, refl, ◌∙◌, Bool, true, false, not,
  Option, none, some, arith, Bool-cases, Option-cases, inl, inr, ◌&&◌,
}
use sockpp.Library.{FileCall}
use sockpp.System.{Os, World, Action}
use sockpp.Tls.Mbed.Socket.{◌>>=?◌}
use sockpp.Tls.Mbed.Roots.{
  certs_dir, certs_file, newline, last_of, file, copy_loop, end_line, read_file, is_cert_name,
  read_if, dir_loop, read_dir, read_system_root_certs, is_dir,
}

-- A text that is empty, or ends with a line feed
abbrev pub EndsLine : List ℕ → Type 0
EndsLine certs = last_of newline certs ≡ newline

last_of-append : (d : ℕ) (xs ys : List ℕ) → last_of d (xs ++ ys) ≡ last_of (last_of d xs) ys
last_of-append d [] ys = refl
last_of-append d (x ∷ xs) ys = last_of-append x xs ys

-- The result, if there is one, has the property.
abbrev pub IfSome {ℓ} : {A : Type ℓ} → (A → Type 0) → Option A → Type 0
IfSome P none = Unit
IfSome P (some a) = P a

>>=?-IfSome {ℓ κ} :
    {A : Type ℓ} {B : Type κ} (P : A → Type 0) (Q : B → Type 0) (x : Action World (Option A))
    (f : A → Action World (Option B)) (w : World)
    → IfSome P (x w).0
    → ((a : A) → P a → (w' : World) → IfSome Q (f a w').0)
    → IfSome Q ((x >>=? f) w).0
>>=?-IfSome P Q x f w first then_f = elim (Option-cases (x w).0) [
  | inl out ↦ rw (out, ◌>>=?◌) tt
  | inr (a, e) ↦
      let holds : P a = subst (λ (r : Option _). IfSome P r) e first in
      rw (e, ◌>>=?◌) (then_f a holds (x w).1)
]

-- `last_char` is the last character of the text so far.
abbrev Follows : List ℕ × ℕ → Type 0
Follows (certs, last_char) = last_of newline certs ≡ last_char

module _ ⦃os : Os⦄ where
  copy_loop-Follows :
      (fuel : ℕ) (path : List ℕ) (good : Bool) (certs : List ℕ) (last_char : ℕ) (w : World)
      → Follows (certs, last_char)
      → IfSome Follows (copy_loop fuel path good certs last_char w).0
  unfolding copy_loop
  copy_loop-Follows zero path good certs last_char w h = tt
  copy_loop-Follows (suc fuel) path false certs last_char w h = h
  copy_loop-Follows (suc fuel) path true certs last_char w h =
      let (r, w') = file (FileCall.ifstream_read path 1024) w in
      copy_loop-Follows fuel path (not (eqb_ℤ r.ret (pos 0))) (certs ++ r.bytes)
        (last_of last_char r.bytes) w' (last_of-append newline certs r.bytes ∙ rw h refl)

  end_line-EndsLine : (t : List ℕ × ℕ) → Follows t → (w : World) → IfSome EndsLine (end_line t w).0
  unfolding end_line
  end_line-EndsLine (certs, c) h w = elim (Bool-cases (c == newline)) [
    | inl done ↦ rw done (ground (arith, h, done))
    | inr open_line ↦ rw open_line (last_of-append newline certs (newline ∷ []))
  ]

  read_file-EndsLine :
      (fuel : ℕ) (path certs : List ℕ) (w : World)
      → EndsLine certs
      → IfSome EndsLine (read_file fuel path certs w).0
  unfolding read_file
  read_file-EndsLine fuel path certs w h =
      let (r, w₁) = file (FileCall.ifstream_open path) w in
      let good = not (eqb_ℤ r.ret (pos 0)) in
      >>=?-IfSome Follows EndsLine (copy_loop fuel path good certs newline) end_line w₁
        (copy_loop-Follows fuel path good certs newline w₁ h) end_line-EndsLine

  read_if-EndsLine :
      (wanted : Bool) (fuel : ℕ) (path certs : List ℕ) (w : World)
      → EndsLine certs
      → IfSome EndsLine (read_if wanted fuel path certs w).0
  unfolding read_if
  read_if-EndsLine false fuel path certs w h = h
  read_if-EndsLine true fuel path certs w h = read_file-EndsLine fuel path certs w h

  dir_loop-EndsLine :
      (fuel : ℕ) (dir : ℤ) (certs : List ℕ)
      → EndsLine certs
      → (w : World) → IfSome EndsLine (dir_loop fuel dir certs w).0
  unfolding dir_loop
  dir_loop-EndsLine zero dir certs h w = tt
  dir_loop-EndsLine (suc fuel) dir certs h w =
      let (ent, w₁) = file (FileCall.readdir dir) w in
      let (wanted, w₂) = is_cert_name (ent.bytes) w₁ in
      elim (Bool-cases (eqb_ℤ ent.ret (pos 0))) [
        | inl last ↦ rw last h
        | inr more ↦ rw more (
            >>=?-IfSome EndsLine EndsLine (read_if wanted fuel (certs_dir ++ ent.bytes) certs)
              (dir_loop fuel dir) w₂
              (read_if-EndsLine wanted fuel (certs_dir ++ ent.bytes) certs w₂ h)
              (dir_loop-EndsLine fuel dir))
      ]

  read_dir-EndsLine : (fuel : ℕ) (w : World) → IfSome EndsLine (read_dir fuel w).0
  unfolding read_dir
  read_dir-EndsLine fuel w =
      let (dir, w₁) = file (FileCall.opendir certs_dir) w in
      elim (Bool-cases (eqb_ℤ dir.ret (pos 0))) [
        | inl shut ↦ rw shut refl
        | inr listed ↦ rw listed (dir_loop-EndsLine fuel dir.ret [] refl w₁)
      ]

  -- Whatever files the system has, the text that is read is empty or ends with a line feed; so does it
  -- after each file, and no certificate's first line joins another's last.
  pub read_system_root_certs-EndsLine :
      (fuel : ℕ) (w : World) → IfSome EndsLine (read_system_root_certs fuel w).0
  unfolding read_system_root_certs
  read_system_root_certs-EndsLine fuel w =
      let (d, w₁) = file (FileCall.stat certs_dir) w in
      let (f, w₂) = file (FileCall.stat (certs_dir ++ certs_file)) w₁ in
      elim (Bool-cases (eqb_ℤ d.ret (pos 0) && is_dir d)) [
        | inl there ↦ elim (Bool-cases (eqb_ℤ f.ret (pos 0))) [
          | inl one ↦ rw (there, one) (read_file-EndsLine fuel (certs_dir ++ certs_file) [] w₂ refl)
          | inr many ↦ rw (there, many) (read_dir-EndsLine fuel w₂)
        ]
        | inr absent ↦ rw absent refl
      ]
