-- ===== src/Tls/Mbed/Roots/Ends.antt =====
-- The loops that read the system's root certificates come to their end.
use sockpp.Prelude.{
  ℤ, pos, ℕ, zero, suc, ◌<◌, ◌≤◌, eqb_ℤ, List, [], ◌∷◌, ◌++◌, ◌≡◌, refl, Bool, true, false, not,
  ◌&&◌, Option, some, arith, Bool-cases, inl, inr, if◌then◌else◌, ◌==◌, ◌+◌,
}
use sockpp.Prelude.Text.{codes}
use sockpp.Library.{LibraryCall, FileCall}
use sockpp.System.{Os, World, Action, Call, Event}
use sockpp.Tls.Mbed.Socket.{◌>>=?◌}
use sockpp.Tls.Mbed.Roots.{
  certs_dir, certs_file, newline, last_of, file, copy_loop, end_line, read_file, is_cert_name,
  read_if, dir_loop, read_dir, read_system_root_certs, is_dir,
}

abbrev pub opens_dir : Call → Bool
opens_dir (Call.library (LibraryCall.file (FileCall.opendir path))) = true
opens_dir c = false

-- Files and directories have a greatest size. `unread` is what is still to be read of a stream: one that was
-- opened has at most `longest`, and a read that leaves it good takes some. `unlisted` is how many
-- entries a directory stream has still to return: one that was opened has at most `widest`, each entry
-- that is returned is one less, and no call but one that opens a directory raises the number.
pub record IsFinite (os : Os) : Type 0 where
  pub longest : ℕ
  pub widest : ℕ
  pub unread : List Event → List ℕ → ℕ
  pub unlisted : List Event → ℤ → ℕ
  pub opens :
      (h : List Event) (path : List ℕ)
      → let c : Call = Call.library (LibraryCall.file (FileCall.ifstream_open path)) in
        unread (record { call = c; reply = os.reply h c } ∷ h) path ≤ longest
  pub falls :
      (h : List Event) (path : List ℕ)
      → let c : Call = Call.library (LibraryCall.file (FileCall.ifstream_read path 1024)) in
        let r = os.reply h c in
        eqb_ℤ r.ret (pos 0) ≡ false
        → unread (record { call = c; reply = r } ∷ h) path < unread h path
  pub opens_at :
      (h : List Event) (path : List ℕ)
      → let c : Call = Call.library (LibraryCall.file (FileCall.opendir path)) in
        let r = os.reply h c in
        eqb_ℤ r.ret (pos 0) ≡ false → unlisted (record { call = c; reply = r } ∷ h) r.ret ≤ widest
  pub lists :
      (h : List Event) (dir : ℤ)
      → let c : Call = Call.library (LibraryCall.file (FileCall.readdir dir)) in
        let r = os.reply h c in
        eqb_ℤ r.ret (pos 0) ≡ false
        → unlisted (record { call = c; reply = r } ∷ h) dir < unlisted h dir
  pub keeps :
      (h : List Event) (c : Call) (dir : ℤ)
      → opens_dir c ≡ false
      → unlisted (record { call = c; reply = os.reply h c } ∷ h) dir ≤ unlisted h dir

-- It ends, with no more left than before.
abbrev EndsFrom {ℓ} : {A : Type ℓ} → (List Event → ℕ) → Action World (Option A) → World → Type ℓ
EndsFrom {A} left x w = (a : A) × ((x w).0 ≡ some a) × (left (x w).1.history ≤ left w.history)

>>=?-EndsFrom :
    {A B : Type 0} (left : List Event → ℕ) (x : Action World (Option A))
    (f : A → Action World (Option B)) (w : World)
    → EndsFrom left x w
    → ((a : A) (w' : World) → left w'.history ≤ left w.history → EndsFrom left (f a) w')
    → EndsFrom left (x >>=? f) w
>>=?-EndsFrom left x f w (a, e, less) then_f =
    let (b, e', less') = then_f a (x w).1 less in
    (b, rw (e, ◌>>=?◌) e', rw (e, ◌>>=?◌) (omega arith))

module _ ⦃os : Os⦄ (finite : IsFinite os) (dir : ℤ) where
  -- What the directory has left
  abbrev pub entries : List Event → ℕ
  entries h = finite.unlisted h dir

  -- A stream that is good is read at least once more.
  copy_loop-Ends :
      (fuel : ℕ) (path : List ℕ) (good : Bool) (certs : List ℕ) (last_char : ℕ) (w : World)
      → (if good then suc (finite.unread w.history path) else 0) < fuel
      → EndsFrom entries (copy_loop fuel path good certs last_char) w
  unfolding copy_loop
  copy_loop-Ends zero path good certs last_char w h = absurd (omega arith)
  copy_loop-Ends (suc fuel) path false certs last_char w h = ((certs, last_char), refl, omega arith)
  copy_loop-Ends (suc fuel) path true certs last_char w h =
      let c = FileCall.ifstream_read path 1024 in
      let (r, w') = file c w in
      let good = not (eqb_ℤ r.ret (pos 0)) in
      let keeps = finite.keeps w.history (Call.library (LibraryCall.file c)) dir refl in
      let falls = finite.falls w.history path in
      let enough : (if good then suc (finite.unread w'.history path) else 0) < fuel =
        ground (arith, falls, h) in
      let (text, e, less) =
        copy_loop-Ends fuel path good (certs ++ r.bytes) (last_of last_char r.bytes) w' enough in
      (text, e, omega (arith, keeps, less))

  end_line-Ends : (t : List ℕ × ℕ) (w : World) → EndsFrom entries (end_line t) w
  unfolding end_line
  end_line-Ends (certs, c) w =
      (if c == newline then certs else certs ++ newline ∷ [], refl, omega arith)

  read_file-Ends :
      (fuel : ℕ) (path certs : List ℕ) (w : World)
      → suc (finite.longest) < fuel
      → EndsFrom entries (read_file fuel path certs) w
  unfolding read_file
  read_file-Ends fuel path certs w h =
      let c = FileCall.ifstream_open path in
      let (r, w₁) = file c w in
      let good = not (eqb_ℤ r.ret (pos 0)) in
      let keeps = finite.keeps w.history (Call.library (LibraryCall.file c)) dir refl in
      let enough : (if good then suc (finite.unread w₁.history path) else 0) < fuel =
        ground (arith, finite.opens w.history path, h) in
      let (text, e, less) =
        >>=?-EndsFrom entries (copy_loop fuel path good certs newline) end_line w₁
          (copy_loop-Ends fuel path good certs newline w₁ enough) (λ t w' l. end_line-Ends t w') in
      (text, e, omega (arith, keeps, less))

  read_if-Ends :
      (wanted : Bool) (fuel : ℕ) (path certs : List ℕ) (w : World)
      → suc (finite.longest) < fuel
      → EndsFrom entries (read_if wanted fuel path certs) w
  unfolding read_if
  read_if-Ends false fuel path certs w h = (certs, refl, omega arith)
  read_if-Ends true fuel path certs w h = read_file-Ends fuel path certs w h

  is_cert_name-le :
      (name : List ℕ) (w : World) → entries (is_cert_name name w).1.history ≤ entries w.history
  unfolding is_cert_name
  is_cert_name-le name w =
      let pem = FileCall.fnmatch (codes "?*.pem") name in
      let crt = FileCall.fnmatch (codes "?*.crt") name in
      let w₁ = (file pem w).1 in
      ground (
        arith,
        finite.keeps w.history (Call.library (LibraryCall.file pem)) dir refl,
        finite.keeps w₁.history (Call.library (LibraryCall.file crt)) dir refl,
      )

  -- A round leaves fuel for the rounds after it, and for the longest file.
  dir_loop-Ends :
      (fuel : ℕ) (certs : List ℕ) (w : World)
      → suc (entries w.history + finite.longest) < fuel
      → EndsFrom entries (dir_loop fuel dir certs) w
  unfolding dir_loop
  dir_loop-Ends zero certs w h = absurd (omega arith)
  dir_loop-Ends (suc fuel) certs w h =
      let c = FileCall.readdir dir in
      let (ent, w₁) = file c w in
      let (wanted, w₂) = is_cert_name (ent.bytes) w₁ in
      let keeps = finite.keeps w.history (Call.library (LibraryCall.file c)) dir refl in
      let named = is_cert_name-le (ent.bytes) w₁ in
      elim (Bool-cases (eqb_ℤ ent.ret (pos 0))) [
        | inl last ↦ rw last (certs, refl, keeps)
        | inr more ↦
            let falls = finite.lists w.history dir more in
            let (text, e, less) =
              >>=?-EndsFrom entries (read_if wanted fuel (certs_dir ++ ent.bytes) certs)
                (dir_loop fuel dir) w₂
                (read_if-Ends wanted fuel (certs_dir ++ ent.bytes) certs w₂
                  (omega (arith, falls, h)))
                (λ t w' l. dir_loop-Ends fuel t w' (omega (arith, l, falls, named, h))) in
            rw more (text, e, omega (arith, less, falls, named))
      ]

module _ ⦃os : Os⦄ (finite : IsFinite os) where
  read_dir-Ends :
      (fuel : ℕ) (w : World)
      → suc (finite.widest + finite.longest) < fuel
      → (text : List ℕ) × ((read_dir fuel w).0 ≡ some text)
  unfolding read_dir
  read_dir-Ends fuel w h =
      let (dir, w₁) = file (FileCall.opendir certs_dir) w in
      elim (Bool-cases (eqb_ℤ dir.ret (pos 0))) [
        | inl shut ↦ rw shut ([], refl)
        | inr listed ↦
            let wide = finite.opens_at w.history certs_dir listed in
            let (text, e, less) =
              dir_loop-Ends finite dir.ret fuel [] w₁ (omega (arith, wide, h)) in
            rw listed (text, e)
      ]

  -- Reading the root certificates comes to its end, whatever is in the directory and the files: fuel for two
  -- rounds more than the greatest number of entries of a directory and the greatest length of a file
  -- together is enough.
  pub read_system_root_certs-Ends :
      (fuel : ℕ) (w : World)
      → suc (finite.widest + finite.longest) < fuel
      → (text : List ℕ) × ((read_system_root_certs fuel w).0 ≡ some text)
  unfolding read_system_root_certs
  read_system_root_certs-Ends fuel w h =
      let (d, w₁) = file (FileCall.stat certs_dir) w in
      let (f, w₂) = file (FileCall.stat (certs_dir ++ certs_file)) w₁ in
      elim (Bool-cases (eqb_ℤ d.ret (pos 0) && is_dir d)) [
        | inl there ↦ elim (Bool-cases (eqb_ℤ f.ret (pos 0))) [
          | inl one ↦
              let (text, e, less) =
                read_file-Ends finite (pos 0) fuel (certs_dir ++ certs_file) [] w₂
                  (omega (arith, h)) in
              rw (there, one) (text, e)
          | inr many ↦ rw (there, many) (read_dir-Ends fuel w₂ h)
        ]
        | inr absent ↦ rw absent ([], refl)
      ]
