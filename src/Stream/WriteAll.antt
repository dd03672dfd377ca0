-- ===== src/Stream/WriteAll.antt =====
-- `write_n` returns, and sends a prefix of its buffer, without a gap and with nothing sent twice.
use Prim.Native.Nat.add
use mathlib.Core.List.{append-nil, append_assoc}
use sockpp.Prelude.{
  ℤ, pos, ℕ, zero, suc, ◌+◌, ◌-◌, ◌≤◌, ◌<◌, ◌≡◌, ◌⊎◌, inl, inr, refl, sym, ap, ◌∙◌, List, [], ◌∷◌,
  ◌++◌, true, false, ltb, eqb_ℤ-refl, ◌==◌, arith, Bool-cases, Option, some, take, drop, length,
  length-drop,
}
use sockpp.Error.{Errc}
use sockpp.Result.{Result, ok, is_error, is_ok, from_error, eq_errc, size_default}
use sockpp.System.{Os, World, Call, Event}
use sockpp.Stream.{write, write_n, write_n_loop}
use sockpp.Stream.Laws.{StreamLaws, accepted, last_is_zero, send_fault}

-- `out` is a normal return of `write_n`, after which the world is `w'`: the system took the first `sent`
-- bytes of the buffer, after `base`.
pub record Writes (fd : ℤ) (buf base : List ℕ) (out : Option (Result ℕ)) (w' : World) : Type 0 where
  pub res : Result ℕ
  pub sent : ℕ
  pub returns : out ≡ some res
  pub complete : accepted fd w'.history ≡ base ++ take sent buf
  pub fits : sent ≤ length buf
  pub counted : is_ok res ≡ true → res.val ≡ sent
  pub whole : is_ok res ≡ true → (sent ≡ length buf) ⊎ (last_is_zero w'.history ≡ true)
  pub blamed : is_error res ≡ true → send_fault fd w'.history ≡ some res.err
  pub uninterrupted : eq_errc res Errc.interrupted ≡ false

-- What one call of `write` for `buf` did.
record WriteStep (fd : ℤ) (buf : List ℕ) (history : List Event) (patience : List Event → ℕ)
    (res : Result ℕ) (history' : List Event) : Type 0 where
  failed : is_error res ≡ true → accepted fd history' ≡ accepted fd history
  blamed : is_error res ≡ true → send_fault fd history' ≡ some res.err
  interrupted :
      is_error res ≡ true
      → eq_errc res Errc.interrupted ≡ true
      → patience history' < patience history
  patient : patience history' ≤ patience history
  bounded : is_error res ≡ false → res.val ≤ length buf
  moved : is_error res ≡ false → accepted fd history' ≡ accepted fd history ++ take res.val buf
  ended : is_error res ≡ false → res.val ≡ 0 → last_is_zero history' ≡ true

module _ ⦃os : Os⦄ (laws : StreamLaws os) (fd : ℤ) where
  write-WriteStep :
      (buf : List ℕ) (w : World)
      → let (res, w') = write fd buf w in WriteStep fd buf w.history laws.patience res w'.history
  unfolding write accepted
  write-WriteStep buf w =
      let c = Call.send fd buf (pos 0) in
      let set = laws.sets w.history c in
      record {
        failed = λ h. ground (arith, append-nil (accepted fd w.history), set);
        blamed = λ h. ground (arith, set, eqb_ℤ-refl fd);
        interrupted = λ h e. ground (arith, laws.patience_lt w.history c);
        patient = ground (arith, laws.patience_le w.history c);
        bounded = λ h. ground (arith, laws.send_bounded w.history fd buf (pos 0));
        moved = λ h. ground (arith, set, eqb_ℤ-refl fd);
        ended = λ h z. ground (arith, set);
      }

take-nil : (n : ℕ) → take {A = ℕ} n [] ≡ []
take-nil zero = refl
take-nil (suc n) = refl

take-add : (m k : ℕ) (xs : List ℕ) → take m xs ++ take k (drop m xs) ≡ take (m + k) xs
take-add zero k xs = ground arith
take-add (suc m) zero [] = ground arith
take-add (suc m) (suc k) [] = ground (arith, take-nil (suc m + suc k))
take-add (suc m) k (x ∷ xs) = rw (add.suc m k) (ap (◌∷◌ x) (take-add m k xs))

-- A return with `nx` bytes sent, because all are or the last call took none.
returns_count :
    {fd : ℤ} {buf base : List ℕ} {w : World} (nx : ℕ)
    → (nx ≡ length buf) ⊎ (last_is_zero w.history ≡ true)
    → nx ≤ length buf
    → accepted fd w.history ≡ base ++ take nx buf
    → Writes fd buf base (some (ok nx)) w
returns_count nx why le h = record {
  res = ok nx;
  sent = nx;
  returns = refl;
  complete = h;
  fits = le;
  counted = λ _. refl;
  whole = λ _. why;
  blamed = λ bad. cc;
  uninterrupted = refl;
}

-- A return with an error, after `nx` bytes.
returns_error :
    {fd : ℤ} {buf base : List ℕ} {w : World} (nx : ℕ) (res : Result ℕ)
    → is_error res ≡ true
    → eq_errc res Errc.interrupted ≡ false
    → send_fault fd w.history ≡ some res.err
    → nx ≤ length buf
    → accepted fd w.history ≡ base ++ take nx buf
    → Writes fd buf base (some (from_error res.err)) w
returns_error nx res failed fatal blame le h = record {
  res = from_error res.err;
  sent = nx;
  returns = refl;
  complete = h;
  fits = le;
  counted = λ good. cc;
  whole = λ good. cc;
  blamed = λ bad. blame;
  uninterrupted = fatal;
}

module _ ⦃os : Os⦄ (laws : StreamLaws os) (fd : ℤ) (buf base : List ℕ) where
  write_n_loop-Writes :
      (fuel nx : ℕ) (w : World)
      → laws.patience w.history + (length buf - nx) < fuel
      → nx ≤ length buf
      → accepted fd w.history ≡ base ++ take nx buf
      → Writes fd buf base (write_n_loop fuel fd buf nx w).0 (write_n_loop fuel fd buf nx w).1
  unfolding write_n_loop
  write_n_loop-Writes zero nx w enough le h = absurd (omega arith)
  write_n_loop-Writes (suc fuel) nx w enough le h =
      let rest = drop nx buf in
      let step = write-WriteStep laws fd rest w in
      let res = (write fd rest w).0 in
      let w' = (write fd rest w).1 in
      let bound = length-drop nx buf in
      elim (Bool-cases (ltb nx (length buf))) [
        | inr full ↦ rw full (returns_count nx (inl (ground arith)) le h)
        | inl short ↦ elim (Bool-cases (is_error res)) [
          | inl failed ↦ elim (Bool-cases (eq_errc res Errc.interrupted)) [
            | inl again ↦
                rw (short, failed, again)
                  (write_n_loop-Writes fuel nx w' (omega (arith, step.interrupted failed again)) le
                    (step.failed failed ∙ h))
            | inr fatal ↦
                rw (short, failed, fatal)
                  (returns_error nx res failed fatal (step.blamed failed) le
                    (step.failed failed ∙ h))
          ]
          | inr fine ↦ elim (Bool-cases (res.val == 0)) [
            | inl nothing ↦
                rw (short, fine, nothing)
                  (returns_count nx (inr (step.ended fine (ground arith))) le
                    (ground (arith, step.moved fine, append-nil (accepted fd w.history))))
            | inr some_bytes ↦
                rw (short, fine, some_bytes)
                  (write_n_loop-Writes fuel (nx + res.val) w' (ground (arith, step.patient))
                    (omega (arith, step.bounded fine, bound))
                    (step.moved fine
                      ∙ ap (λ (l : List ℕ). l ++ take res.val rest) h
                      ∙ append_assoc base (take nx buf) (take res.val rest)
                      ∙ ap (◌++◌ base) (take-add nx res.val buf)))
          ]
        ]
      ]

-- Given fuel for every interrupt still to come and every byte of the buffer, `write_n` returns. What the
-- system took meanwhile is exactly a prefix of the buffer, with no gap and nothing sent twice. With
-- success the prefix has the length returned, and is the whole buffer unless the last call returned 0;
-- an error is that of the last call, which failed, and is never `interrupted`. It relies on the documented behaviour in `StreamLaws`.
pub write_n-Writes :
    ⦃os : Os⦄ (laws : StreamLaws os) (fuel : ℕ) (fd : ℤ) (buf : List ℕ) (w : World)
    → laws.patience w.history + length buf < fuel
    → Writes fd buf (accepted fd w.history) (write_n fuel fd buf w).0 (write_n fuel fd buf w).1
unfolding write_n
write_n-Writes laws fuel fd buf w enough =
    write_n_loop-Writes laws fd buf (accepted fd w.history) fuel 0 w (omega arith) (omega arith)
      (sym (append-nil (accepted fd w.history)))
