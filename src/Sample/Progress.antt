-- ===== src/Sample/Progress.antt =====
-- A rotation of the default usages that succeeds, at concrete inputs.
use service_json_keys.Prelude.{
  ℕ, zero, suc, ◌≡◌, refl, ap, ◌∙◌, true, some, [], arith, all, ltb, eq_iff, length, subst,
}
use service_json_keys.Fault.{ok}
use service_json_keys.Encoding.Base64
use service_json_keys.Config.{ed_dsa, lookup, jwk_preset_default}
use service_json_keys.Core.Presets.{of_pair}
use service_json_keys.Dao.Schema.{has_id}
use service_json_keys.Core.RotateAll.{rotate_all}
use service_json_keys.Core.RotateAll.Laws.{Ensures}
use service_json_keys.Core.RotateAll.Supply.{IsNamed, Supplies, CanRotate, IsOpen, Commits}
use service_json_keys.Core.RotateAll.Progress.{rotate_all_done}
use service_json_keys.Sample.{
  ctx, empty_world, transactor, transactor_sample, master_key_bytes, nonce_bytes,
}
use service_json_keys.Sample.Numbered.{
  numbered, numbered-IsSecretbox, numbered-IsJson, numbered-IsRandom, numbered_pair, numbered_key,
  repeat, tally, length-repeat, count-tally,
}

all-repeat : (n b : ℕ) → ltb b 256 ≡ true → all (λ c. ltb c 256) (repeat n b) ≡ true
all-repeat zero b h = refl
all-repeat (suc n) b h = ground (arith, all-repeat n b)

marshal_repeat :
    (n b : ℕ) → ltb b 256 ≡ true → numbered.marshal (numbered_key (repeat n b)) ≡ ok (repeat n b)
marshal_repeat n b h =
    let kid = tally (length (repeat n b)) in rw ((eq_iff kid kid).1 refl, all-repeat n b h) refl

pair-IsNamed : (n : ℕ) → IsNamed numbered n (of_pair (numbered_pair n))
pair-IsNamed n = record {
  private_text = repeat n 1;
  marshal_private = marshal_repeat n 1 refl;
  public_text = some (Base64.encode (repeat n 2));
  marshal_public = rw (marshal_repeat n 2 refl) refl;
  parsed = ap ok (count-tally (length (repeat n 1)) ∙ length-repeat n 1);
}

numbered-Supplies : Supplies numbered (λ n. n) ed_dsa
numbered-Supplies = record {
  pairs = λ n. (numbered_pair n, refl);
  named = λ n pair e.
      let same : numbered_pair n ≡ pair = cc in
      subst (λ p. IsNamed numbered n (of_pair p)) same (pair-IsNamed n);
}

able : CanRotate numbered ctx jwk_preset_default (λ n. n)
able = record {
  secret = master_key_bytes;
  held = refl;
  up = λ n. refl;
  nonce = λ n. (nonce_bytes, refl);
  supplies = (numbered-Supplies, (numbered-Supplies, tt));
  distinct = λ m n e. e;
  short = (omega arith, (omega arith, tt));
  late = λ n. omega arith;
}

empty-IsOpen : IsOpen numbered ctx (λ n. n) empty_world
unfolding has_id
empty-IsOpen = ((λ n late. refl), λ r listed active. elim listed [ ])

transactor-Commits : Commits transactor
transactor-Commits = record { committed = λ c f w u n ran. rw ran refl }

rotate_all_done_example :
    ((rotate_all numbered jwk_preset_default transactor ctx empty_world).0
      ≡ ok (record { processed = 2 }))
    × Ensures numbered 0 jwk_preset_default []
        (rotate_all numbered jwk_preset_default transactor ctx empty_world).1.rows
unfolding lookup
rotate_all_done_example =
    rotate_all_done numbered jwk_preset_default (λ n. n) transactor ctx empty_world
      numbered-IsSecretbox numbered-IsJson numbered-IsRandom transactor_sample transactor-Commits
      (refl, (refl, tt)) able empty-IsOpen
