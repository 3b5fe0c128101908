-- ===== src/Rpc/Last.antt =====
-- What the readers of Sinboha/gen-cpp/SinbohaRPC.cpp keep of a struct with several fields of one number:
-- the value of the last one.
use sinboha.Prelude.{
  ℕ, ◌<◌, ◌≡◌, ◌≢◌, ◌⊎◌, inl, inr, refl, Bool, true, false, String, Option, none, some, List, [],
  ◌∷◌, ◌++◌, arith, ap, sym, ◌∙◌, length, Option-cases, Bool-cases,
}
use sinboha.Prelude.Int.{ℤ, pos}
use sinboha.Rpc.{Protocol, done, Write, is_field}
use sinboha.Rpc.Structs.{CanYouActivateMeArgs, read_can_you_activate_me_args}
use sinboha.Rpc.Delivery.{
  Value, Field, write_struct, Delivers, choose, has_some, latest, present, as_i16, as_i64,
}
use sinboha.Rpc.Readers.{read_can_you_activate_me_args-latest}

is_field-true : (fid : ℤ) (k : ℕ) → is_field fid k ≡ true → fid ≡ pos k
is_field-true fid k e = ground arith

is_field-false : (fid : ℤ) (k : ℕ) → is_field fid k ≡ false → fid ≢ pos k
is_field-false fid k e = ground arith

module _ {A : Type 0} (pick : Value → Option A) (k : ℕ) where
  -- No field has this number and a value of the type that `pick` takes.
  abbrev pub HasNone : List Field → Type 0
  HasNone [] = Unit
  HasNone ((name, fid, v) ∷ fs) = ((fid ≢ pos k) ⊎ (pick v ≡ none)) × HasNone fs

  -- A field with this number and the value `a`, and none after it.
  abbrev pub HasLast : A → List Field → Type 0
  HasLast a fs =
      (before : List Field) × (after : List Field) × (name : String) × (v : Value) × (fs
        ≡ before ++ ((name, pos k, v) ∷ after))
      × (pick v ≡ some a)
      × HasNone after

  -- What is read is the value of the last such field, and is marked as set; if there is none it is `d`,
  -- and is not marked.
  abbrev pub IsLast : A → A → Bool → List Field → Type 0
  IsLast d a isset fs = ((isset ≡ true) × HasLast a fs) ⊎ ((isset ≡ false) × (a ≡ d) × HasNone fs)

  -- For a reader that has come upon `d` so far, and on a field with it if `b`.
  Found : A → Bool → List Field → Type 0
  Found d b fs =
      ((present pick k b fs ≡ true) × HasLast (latest pick k d fs) fs)
      ⊎ ((present pick k b fs ≡ b) × (latest pick k d fs ≡ d) × HasNone fs)

  later-HasLast :
      (d : A) (b : Bool) (name : String) (fid : ℤ) (v : Value) (fs : List Field)
      → HasLast (latest pick k (choose (is_field fid k) (pick v) d) fs) fs
      → HasLast (latest pick k d ((name, fid, v) ∷ fs)) ((name, fid, v) ∷ fs)
  unfolding latest
  later-HasLast d b name fid v fs (before, after, name', v', parts, picks, free) =
      ((name, fid, v) ∷ before, after, name', v', ap (λ gs. (name, fid, v) ∷ gs) parts, picks, free)

  here-Found :
      (d : A) (b : Bool) (name : String) (fid : ℤ) (v : Value) (fs : List Field)
      → present pick k (has_some (is_field fid k) (pick v) b) fs
        ≡ has_some (is_field fid k) (pick v) b
      → latest pick k (choose (is_field fid k) (pick v) d) fs ≡ choose (is_field fid k) (pick v) d
      → HasNone fs
      → Found d b ((name, fid, v) ∷ fs)
  unfolding Found latest present
  here-Found d b name fid v fs same kept free = elim (Bool-cases (is_field fid k)) [
    | inl its ↦ elim (Option-cases (pick v)) [
      | inl nothing ↦ inr (same ∙ rw (its, nothing), kept ∙ rw (its, nothing), (inr nothing, free))
      | inr (a, picks) ↦ inl (
        same ∙ rw (its, picks),
        (
          [],
          fs,
          name,
          v,
          rw (is_field-true fid k its),
          picks ∙ sym (ap some (kept ∙ rw (its, picks))),
          free,
        ),
      )
    ]
    | inr other ↦ inr (same ∙ rw other, kept ∙ rw other, (inl (is_field-false fid k other), free))
  ]

  every-Found : (d : A) (b : Bool) (fs : List Field) → Found d b fs
  unfolding Found latest present
  every-Found d b [] = inr (refl, refl, tt)
  every-Found d b ((name, fid, v) ∷ fs) =
      elim (every-Found (choose (is_field fid k) (pick v) d) (has_some (is_field fid k) (pick v) b)
        fs) [
          | inl (set, last) ↦ inl (set, later-HasLast d b name fid v fs last)
          | inr (same, kept, free) ↦ here-Found d b name fid v fs same kept free
        ]

  latest-IsLast :
      (d : A) (fs : List Field) → IsLast d (latest pick k d fs) (present pick k false fs) fs
  unfolding Found
  latest-IsLast d fs = every-Found d false fs

module _ (P : Protocol) (D : Delivers P) where
  open D use {deliver}

  -- Let a struct have fields of the types bool, i16, i64 and string, any number of them and with any
  -- numbers, in any order. The reader of the arguments reads it without an error, in as many rounds as
  -- there are fields and one more: the time is the last i64 with number 1, and the status the last
  -- i16 with number 2, each marked as set; the other fields are passed over, and where there is no
  -- such field the value is 0 and not marked.
  pub read_can_you_activate_me_args-IsLast :
      (n : ℕ) (struct : String) (fs : List Field) (ws : List Write)
      → length fs < n
      → (a : CanYouActivateMeArgs) × (read_can_you_activate_me_args P n
            (deliver (write_struct struct fs ws))
          ≡ done (a, deliver ws))
        × IsLast as_i64 1 (pos 0) a.change_time a.isset_change_time fs
        × IsLast as_i16 2 (pos 0) a.status a.isset_status fs
  read_can_you_activate_me_args-IsLast n struct fs ws l = (
    record {
      change_time = latest as_i64 1 (pos 0) fs;
      status = latest as_i16 2 (pos 0) fs;
      isset_change_time = present as_i64 1 false fs;
      isset_status = present as_i16 2 false fs;
    },
    read_can_you_activate_me_args-latest P D n struct fs ws l,
    latest-IsLast as_i64 1 (pos 0) fs,
    latest-IsLast as_i16 2 (pos 0) fs,
  )
