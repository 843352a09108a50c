-- ===== src/Storage/Concurrent/Planned.antt =====
-- `PutObject` carries out its plan.
use shardstore.Common.{
  ℕ, zero, suc, ◌+◌, ◌-◌, ◌≡◌, refl, sym, ap, ◌∙◌, ◌==◌, ltb, if◌then◌else◌, inl, inr, Bool-cases,
}
use shardstore.Common.{Bytes, List, [], ◌∷◌, ◌++◌, length, ℤ, pos, pos_part, ltb_ℤ}
use shardstore.Errors.{Error, Result, ok, err, and_then, wrap_err, Result-cases}
use shardstore.Reader.{read_full}
use shardstore.Ec.ReedSolomon.{Engine}
use shardstore.Ec.{Encoder, new_encoder, encode}
use shardstore.Storage.ShardStore.{ShardStore}
use shardstore.Storage.ShardStore.Calls.{Call, put}
use shardstore.Storage.Object.{
  EcParams, ObjectStore, to_ec_params, wrap_32, key_of, header_for, put_shards, put_stripe,
  put_loop, put_object,
}
use shardstore.Storage.Concurrent.Plan.{
  Plan, planned, preceded, stripe_calls, loop_plan, marked, put_plan, attempt, follow,
}

and_then_assoc :
    {A B C S : Type 0} (x : Result A × S) (f : A → S → Result B × S) (g : B → S → Result C × S)
    → and_then (and_then x f) g ≡ and_then x (λ a s. and_then (f a s) g)
and_then_assoc (ok a, s) f g = refl
and_then_assoc (err e, s) f g = refl

and_then_cong :
    {A B S : Type 0} (x : Result A × S) {f g : A → S → Result B × S}
    → ((a : A) (s : S) → f a s ≡ g a s)
    → and_then x f ≡ and_then x g
and_then_cong (ok a, s) h = h a s
and_then_cong (err e, s) h = refl

and_then_unit : {S : Type 0} (x : Result (Unit {0}) × S) → and_then x (λ _ s'. (ok tt, s')) ≡ x
and_then_unit (ok tt, s) = refl
and_then_unit (err e, s) = refl

module _ {S : Type 0} (st : ShardStore S) where
  pub follow-append :
      {A : Type 0} (cs ds : List Call) (end : Result A) (s : S)
      → follow st (cs ++ ds) end s
        ≡ and_then (follow st cs (ok tt) s) (λ (_ : Unit {0}) s'. follow st ds end s')
  unfolding follow
  follow-append [] ds end s = refl
  follow-append (c ∷ cs) ds end s =
      and_then_cong (attempt st s c) (λ a s'. follow-append cs ds end s')
      ∙ sym (and_then_assoc (attempt st s c) _ _)

  put_shards_lem :
      (p : EcParams) (id : Bytes) (idx len i : ℕ) (shards : List Bytes) (s : S)
      → put_shards st p id idx len i shards s
        ≡ follow st (stripe_calls p id idx len i shards) (ok tt) s
  unfolding put_shards follow stripe_calls
  put_shards_lem p id idx len i [] s = refl
  put_shards_lem p id idx len i (d ∷ shards) s =
      and_then_cong (attempt st s (put (key_of id idx i) (header_for p id idx i len (length d)) d))
        (λ a s'. put_shards_lem p id idx len (i + 1) shards s')

  -- A plan that starts with a plan.
  follow-preceded :
      {A : Type 0} (cs : List Call) (p : Plan A) (s : S)
      → follow st (preceded cs p).0 (preceded cs p).1 s
        ≡ and_then (follow st cs (ok tt) s) (λ (_ : Unit {0}) s'. follow st p.0 p.1 s')
  follow-preceded cs (ds, end) s = follow-append cs ds end s

  follow-planned :
      {A B : Type 0} (x : Result A) (p : A → Plan B) (s : S)
      → follow st (planned x p).0 (planned x p).1 s
        ≡ and_then (x, s) (λ a s'. follow st (p a).0 (p a).1 s')
  unfolding follow
  follow-planned (ok a) p s = refl
  follow-planned (err e) p s = refl

  put_loop_plan_lem :
      (fuel : ℕ) (o : ObjectStore) (enc : Encoder) (id r : Bytes) (idx remaining : ℕ) (s : S)
      → put_loop st fuel o enc id r idx remaining s
        ≡ follow st
            (loop_plan fuel o enc id r idx remaining).0
            (loop_plan fuel o enc id r idx remaining).1
            s
  unfolding put_loop loop_plan follow put_stripe
  put_loop_plan_lem zero o enc id r idx remaining s = elim (Bool-cases (remaining == 0)) [
    | inl done ↦ rw done refl
    | inr more ↦ rw more refl
  ]
  put_loop_plan_lem (suc fuel) o enc id r idx remaining s = elim (Bool-cases (remaining == 0)) [
    | inl done ↦ rw done refl
    | inr more ↦
        let n = if ltb remaining o.stripe_size then remaining else o.stripe_size in
        rw more (
          and_then_cong (wrap_err "storage: read input" (read_full n r), s)
            (λ got s₁.
              and_then_assoc (encode enc got.0, s₁) _ _
              ∙ and_then_cong (encode enc got.0, s₁)
                  (λ shards s₂.
                    ap
                      (λ t. and_then t λ _ s'.
                        put_loop st fuel o enc id got.1 (wrap_32 (idx + 1)) (remaining - n) s')
                      (put_shards_lem o.params id idx (length got.0) 0 shards s₂)
                    ∙ and_then_cong
                        (follow st (stripe_calls o.params id idx (length got.0) 0 shards) (ok tt)
                          s₂)
                        (λ _ s'.
                          put_loop_plan_lem fuel o enc id got.1 (wrap_32 (idx + 1)) (remaining - n)
                            s')
                    ∙ sym (
                        follow-preceded (stripe_calls o.params id idx (length got.0) 0 shards) _
                          s₂))
              ∙ sym (follow-planned (encode enc got.0) _ s₁))
          ∙ sym (follow-planned (wrap_err "storage: read input" (read_full n r)) _ s))
  ]

  follow-end :
      {A B : Type 0} (cs : List Call) (end : Result A) (f : A → S → Result B × S) (s : S)
      → and_then (follow st cs end s) f
        ≡ and_then (follow st cs (ok tt) s) (λ (_ : Unit {0}) s'. and_then (end, s') f)
  unfolding follow
  follow-end [] end f s = refl
  follow-end (c ∷ cs) end f s =
      and_then_assoc (attempt st s c) _ _
      ∙ and_then_cong (attempt st s c) (λ a s'. follow-end cs end f s')
      ∙ sym (and_then_assoc (attempt st s c) _ _)

  follow-err :
      {B : Type 0} (cs : List Call) (e : Error) (s : S)
      → and_then (follow st cs (ok tt) s) (λ (_ : Unit {0}) s'. (err e, s'))
        ≡ follow st {A = B} cs (err e) s
  unfolding follow
  follow-err [] e s = refl
  follow-err (c ∷ cs) e s =
      and_then_assoc (attempt st s c) _ _
      ∙ and_then_cong (attempt st s c) (λ a s'. follow-err cs e s')

  follow-marked :
      (o : ObjectStore) (id : Bytes) (size : ℤ) (p : Plan ℕ) (s : S)
      → and_then (follow st p.0 p.1 s) (λ stripes s'.
        st.write_marker s' id
          (record { size = size; stripes = stripes; params = to_ec_params o.params }))
        ≡ follow st (marked o id size p).0 (marked o id size p).1 s
  unfolding follow
  follow-marked o id size (cs, ok n) s =
      follow-end cs (ok n) _ s
      ∙ and_then_cong (follow st cs (ok tt) s) (λ _ s'. sym (and_then_unit _))
      ∙ sym (follow-append cs _ (ok tt) s)
  follow-marked o id size (cs, err e) s = follow-end cs (err e) _ s ∙ follow-err cs e s

  -- `PutObject` makes the calls of its plan one after the other, up to the first that fails. It returns the
  -- error of that call, a `PutShard`'s with its text before it, or what the plan says where none fails. The plan
  -- is made of the arguments of `PutObject` alone, whatever the store holds.
  pub put_object-put_plan :
      (new_engine : ℤ → ℤ → Result Engine) (o : ObjectStore) (s : S) (id r : Bytes) (size : ℤ)
      → put_object st new_engine o s id r size
        ≡ follow st (put_plan new_engine o id r size).0 (put_plan new_engine o id r size).1 s
  unfolding put_object put_plan follow
  put_object-put_plan new_engine o s id r size = elim (Bool-cases (length id == 0)) [
    | inl e ↦ rw e refl
    | inr named ↦ elim (Bool-cases (ltb_ℤ size (pos 0))) [
      | inl e ↦ rw (named, e) refl
      | inr signed ↦ elim (Result-cases (new_encoder new_engine (to_ec_params o.params))) [
        | inr (x, e) ↦ rw (named, signed, e) refl
        | inl (enc, e) ↦
            rw (named, signed, e)
              (ap
                  (λ t. and_then t λ stripes s'.
                    st.write_marker s' id
                      (record { size = size; stripes = stripes; params = to_ec_params o.params }))
                  (put_loop_plan_lem (pos_part size) o enc id r 0 (pos_part size) s)
                ∙ follow-marked o id size (loop_plan (pos_part size) o enc id r 0 (pos_part size))
                    s)
      ]
    ]
  ]
