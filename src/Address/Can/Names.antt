-- ===== src/Address/Can/Names.antt =====
-- Interfaces by index and by name.
use sockpp.Prelude.{
  pos, eqb_ℤ, pos_part, ltb_ℤ, ℕ, ◌^◌, ◌<◌, List, [], ◌∷◌, ◌≡◌, true, false, arith,
}
use sockpp.Result.{ok, is_ok, is_error, list_default}
use sockpp.System.{Os, World, Call, Event, Reply}
use sockpp.Address.{family, af_can}
use sockpp.Address.Can.{make, index, create, get_iface, iface}

-- What the manual pages of the two calls say: an index fits a 32-bit `int`, 0 means failure, which
-- sets `errno`, and an index that was found for a name has this name.
pub record NamesInterfaces (os : Os) : Type 0 where
  pub fits :
      (h : List Event) (name : List ℕ)
      → (ltb_ℤ (os.reply h (Call.if_nametoindex name)).ret (pos 0) ≡ false)
        × (pos_part (os.reply h (Call.if_nametoindex name)).ret < 2 ^ 31)
  pub index_errno :
      (h : List Event) (name : List ℕ)
      → eqb_ℤ (os.reply h (Call.if_nametoindex name)).ret (pos 0) ≡ true
      → eqb_ℤ (os.reply h (Call.if_nametoindex name)).errno (pos 0) ≡ false
  pub name_errno :
      (h : List Event) (i : ℕ)
      → eqb_ℤ (os.reply h (Call.if_indextoname i)).ret (pos 0) ≡ true
      → eqb_ℤ (os.reply h (Call.if_indextoname i)).errno (pos 0) ≡ false
  pub named :
      (h : List Event) (name : List ℕ) (r : Reply)
      → eqb_ℤ r.ret (pos 0) ≡ false
      → let answer =
          os.reply
            (record { call = Call.if_nametoindex name; reply = r } ∷ h)
            (Call.if_indextoname (pos_part r.ret)) in
        (eqb_ℤ answer.ret (pos 0) ≡ false) × (answer.bytes ≡ name)

index-make : (idx : ℕ) → idx < 2 ^ 32 → index (make idx) ≡ idx
unfolding index make
index-make idx h = omega arith

family-make : (idx : ℕ) → family (make idx) ≡ af_can
unfolding family make
family-make idx = omega arith

module _ ⦃os : Os⦄ where
  -- An address that was created for the name of an interface gives this name back.
  get_iface-create :
      (laws : NamesInterfaces os) (name : List ℕ) (w : World)
      → let (made, w') = create name w in is_ok made ≡ true → (get_iface made.val w').0 ≡ ok name
  unfolding create get_iface
  get_iface-create laws name w =
      let r = os.reply w.history (Call.if_nametoindex name) in
      ground (
        arith,
        laws.fits w.history name,
        laws.index_errno w.history name,
        laws.named w.history name r,
        index-make (pos_part r.ret),
        family-make (pos_part r.ret),
      )

  -- `iface` makes the calls of `get_iface`, and returns its name, or "unknown" where that is an error.
  iface-get_iface :
      (laws : NamesInterfaces os) (bytes : List ℕ) (w : World)
      → let (res, w₁) = get_iface bytes w in
        let (name, w₂) = iface bytes w in
        (w₂ ≡ w₁)
        × (is_ok res ≡ true → name ≡ res.val)
        × (is_error res ≡ true → name ≡ 117 ∷ 110 ∷ 107 ∷ 110 ∷ 111 ∷ 119 ∷ 110 ∷ [])
  unfolding get_iface iface
  iface-get_iface laws bytes w = ground (arith, laws.name_errno w.history (index bytes))
