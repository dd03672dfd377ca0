-- ===== src/Stream/ReadAll.antt =====
-- `read_n` returns, and hands over all that was delivered.
use mathlib.Core.List.{append-nil, append_assoc}
use sockpp.Prelude.{
  ℤ, pos, ℕ, zero, suc, ◌+◌, ◌-◌, ◌≤◌, ◌<◌, ◌≡◌, ◌⊎◌, inl, inr, refl, sym, ap, ◌∙◌, List, [], ◌++◌,
  true, false, ltb, eqb_ℤ-refl, ◌==◌, arith, Bool-cases, Option, some, take, length, length-append,
  length-take, pos_part,
}
use sockpp.Error.{Errc}
use sockpp.Result.{Result, ok, is_error, is_ok, from_error, eq_errc, size_default}
use sockpp.System.{Os, World, Call, Event}
use sockpp.Stream.{read, read_n, read_n_loop}
use sockpp.Stream.Laws.{StreamLaws, delivered, last_is_zero, recv_fault}

-- `out` is a normal return of `read_n`, after which the world is `w'`: the buffer holds `got`, which
-- is what the system delivered after `base`.
pub record Reads (fd : ℤ) (n : ℕ) (base : List ℕ) (out : Option (Result ℕ × List ℕ)) (w' : World)
    : Type 0 where
  pub res : Result ℕ
  pub got : List ℕ
  pub returns : out ≡ some (res, got)
  pub complete : delivered fd w'.history ≡ base ++ got
  pub fits : length got ≤ n
  pub counted : is_ok res ≡ true → res.val ≡ length got
  pub whole : is_ok res ≡ true → (length got ≡ n) ⊎ (last_is_zero w'.history ≡ true)
  pub blamed : is_error res ≡ true → recv_fault fd w'.history ≡ some res.err
  pub uninterrupted : eq_errc res Errc.interrupted ≡ false

-- What one call of `read` for `k` bytes did.
record ReadStep (fd : ℤ) (k : ℕ) (history : List Event) (patience : List Event → ℕ) (res : Result ℕ)
    (bytes : List ℕ) (history' : List Event) : Type 0 where
  failed : is_error res ≡ true → delivered fd history' ≡ delivered fd history
  blamed : is_error res ≡ true → recv_fault fd history' ≡ some res.err
  interrupted :
      is_error res ≡ true
      → eq_errc res Errc.interrupted ≡ true
      → patience history' < patience history
  patient : patience history' ≤ patience history
  bounded : is_error res ≡ false → res.val ≤ k
  filled : is_error res ≡ false → length (take res.val bytes) ≡ res.val
  moved : is_error res ≡ false → delivered fd history' ≡ delivered fd history ++ take res.val bytes
  ended : is_error res ≡ false → res.val ≡ 0 → last_is_zero history' ≡ true

module _ ⦃os : Os⦄ (laws : StreamLaws os) (fd : ℤ) where
  read-ReadStep :
      (k : ℕ) (w : World)
      → let ((res, bytes), w') = read fd k w in
        ReadStep fd k w.history laws.patience res bytes w'.history
  unfolding read delivered
  read-ReadStep k w =
      let c = Call.recv fd k (pos 0) in
      let r = os.reply w.history c in
      let set = laws.sets w.history c in
      let fills = laws.recv_fills w.history fd k (pos 0) in
      record {
        failed = λ h. ground (arith, append-nil (delivered fd w.history), set);
        blamed = λ h. ground (arith, set, eqb_ℤ-refl fd);
        interrupted = λ h e. ground (arith, laws.patience_lt w.history c);
        patient = ground (arith, laws.patience_le w.history c);
        bounded = λ h. ground (arith, laws.recv_bounded w.history fd k (pos 0));
        filled = λ h. ground (arith, length-take (pos_part r.ret) r.bytes, fills, set);
        moved = λ h. ground (arith, set, eqb_ℤ-refl fd);
        ended = λ h z. ground (arith, set);
      }

-- A return with `nx` bytes, because the buffer is full or the last call returned 0.
returns_count :
    {fd : ℤ} {n : ℕ} {base got : List ℕ} {w : World} (nx : ℕ)
    → (nx ≡ n) ⊎ (last_is_zero w.history ≡ true)
    → nx ≡ length got
    → nx ≤ n
    → delivered fd w.history ≡ base ++ got
    → Reads fd n base (some (ok nx, got)) w
returns_count {got} nx why e le h = record {
  res = ok nx;
  got = got;
  returns = refl;
  complete = h;
  fits = omega arith;
  counted = λ _. e;
  whole = λ _. ground arith;
  blamed = λ bad. cc;
  uninterrupted = refl;
}

-- A return with an error.
returns_error :
    {fd : ℤ} {n : ℕ} {base got : List ℕ} {w : World} (res : Result ℕ)
    → is_error res ≡ true
    → eq_errc res Errc.interrupted ≡ false
    → recv_fault fd w.history ≡ some res.err
    → length got ≤ n
    → delivered fd w.history ≡ base ++ got
    → Reads fd n base (some (from_error res.err, got)) w
returns_error {got} res failed fatal blame le h = record {
  res = from_error res.err;
  got = got;
  returns = refl;
  complete = h;
  fits = le;
  counted = λ good. cc;
  whole = λ good. cc;
  blamed = λ bad. blame;
  uninterrupted = fatal;
}

module _ ⦃os : Os⦄ (laws : StreamLaws os) (fd : ℤ) (n : ℕ) (base : List ℕ) where
  read_n_loop-Reads :
      (fuel nx : ℕ) (got : List ℕ) (w : World)
      → laws.patience w.history + (n - nx) < fuel
      → nx ≡ length got
      → nx ≤ n
      → delivered fd w.history ≡ base ++ got
      → Reads fd n base (read_n_loop fuel fd n nx got w).0 (read_n_loop fuel fd n nx got w).1
  unfolding read_n_loop
  read_n_loop-Reads zero nx got w enough e le h = absurd (omega arith)
  read_n_loop-Reads (suc fuel) nx got w enough e le h =
      let step = read-ReadStep laws fd (n - nx) w in
      let res = (read fd (n - nx) w).0.0 in
      let bytes = (read fd (n - nx) w).0.1 in
      let w' = (read fd (n - nx) w).1 in
      elim (Bool-cases (ltb nx n)) [
        | inr full ↦ rw full (returns_count nx (inl (ground arith)) e le h)
        | inl short ↦ elim (Bool-cases (is_error res)) [
          | inl failed ↦ elim (Bool-cases (eq_errc res Errc.interrupted)) [
            | inl again ↦
                rw (short, failed, again)
                  (read_n_loop-Reads fuel nx got w' (omega (arith, step.interrupted failed again)) e
                    le (step.failed failed ∙ h))
            | inr fatal ↦
                rw (short, failed, fatal)
                  (returns_error res failed fatal (step.blamed failed) (omega arith)
                    (step.failed failed ∙ h))
          ]
          | inr fine ↦ elim (Bool-cases (res.val == 0)) [
            | inl nothing ↦
                rw (short, fine, nothing)
                  (returns_count nx (inr (step.ended fine (ground arith))) e le
                    (ground (arith, step.moved fine, append-nil (delivered fd w.history))))
            | inr some_bytes ↦
                rw (short, fine, some_bytes)
                  (read_n_loop-Reads fuel (nx + res.val) (got ++ take res.val bytes) w'
                    (ground (arith, step.patient))
                    (omega (arith, length-append got (take res.val bytes), step.filled fine))
                    (omega (arith, step.bounded fine))
                    (step.moved fine
                      ∙ ap (λ (l : List ℕ). l ++ take res.val bytes) h
                      ∙ append_assoc base got (take res.val bytes)))
          ]
        ]
      ]

-- Given fuel for every interrupt still to come and every byte asked for, `read_n` returns. What it has put
-- into the buffer is exactly what the system delivered meanwhile, in order and without a gap, and no
-- more than `n` bytes. With success it returns their number, which is `n` unless the last call returned 0; an
-- error is that of the last call, which failed, and is never `interrupted`. It relies on the documented behaviour in `StreamLaws`.
pub read_n-Reads :
    ⦃os : Os⦄ (laws : StreamLaws os) (fuel : ℕ) (fd : ℤ) (n : ℕ) (w : World)
    → laws.patience w.history + n < fuel
    → Reads fd n (delivered fd w.history) (read_n fuel fd n w).0 (read_n fuel fd n w).1
unfolding read_n
read_n-Reads laws fuel fd n w enough =
    read_n_loop-Reads laws fd n (delivered fd w.history) fuel 0 [] w (omega arith) refl
      (omega arith) (sym (append-nil (delivered fd w.history)))
