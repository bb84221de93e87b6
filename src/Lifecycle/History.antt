-- ===== src/Lifecycle/History.antt =====
-- What no sequence of moves undoes: the constraints of the table, and the past of a row.
use service_json_keys.Prelude.{
  ◌≤◌, ◌≡◌, refl, sym, subst, ◌∙◌, ◌⊎◌, inl, inr, none, List, [], ◌∷◌, arith, Listed,
  Any-append_left, Bool-cases,
}
use service_json_keys.Types.{Row}
use service_json_keys.Externals.{Externals}
use service_json_keys.World.{World}
use service_json_keys.Dao.{JwkDeleteRequest, revoke, revoke_all, targets}
use service_json_keys.Dao.Schema.{is_deletable}
use service_json_keys.Dao.Insert.{IsTable, IsTable-append}
use service_json_keys.Dao.Delete.{targets_iff, IsTable-revoke_all}
use service_json_keys.Lifecycle.{Move, idle, add, retract, Reach, here, next}

-- The later state of a row: the same key, and the same deletion once there is one.
pub record IsLater (r s : Row) : Type 0 where
  pub id : s.id ≡ r.id
  pub private_key : s.private_key ≡ r.private_key
  pub public_key : s.public_key ≡ r.public_key
  pub usage : s.usage ≡ r.usage
  pub created_at : s.created_at ≡ r.created_at
  pub expires_at : s.expires_at ≡ r.expires_at
  pub deletion :
      (r.deleted_at ≡ none)
      ⊎ ((s.deleted_at ≡ r.deleted_at) × (s.deleted_comment ≡ r.deleted_comment))

IsLater-refl : (r : Row) → IsLater r r
IsLater-refl r = record {
  id = refl;
  private_key = refl;
  public_key = refl;
  usage = refl;
  created_at = refl;
  expires_at = refl;
  deletion = inr (refl, refl);
}

IsLater-trans : (r s t : Row) → IsLater r s → IsLater s t → IsLater r t
IsLater-trans r s t h k = record {
  id = k.id ∙ h.id;
  private_key = k.private_key ∙ h.private_key;
  public_key = k.public_key ∙ h.public_key;
  usage = k.usage ∙ h.usage;
  created_at = k.created_at ∙ h.created_at;
  expires_at = k.expires_at ∙ h.expires_at;
  deletion = elim h.deletion [
    | inl e ↦ inl e
    | inr (a, b) ↦ elim k.deletion [ inl e ↦ inl (sym a ∙ e) | inr (c, d) ↦ inr (c ∙ a, d ∙ b) ]
  ];
}

-- Every row of the first table has a later state in the second.
abbrev pub Remembers : List Row → List Row → Type 0
Remembers before after = (r : Row) → Listed r before → (s : Row) × Listed s after × IsLater r s

module _ (x : Externals) where
  IsLater-revoke :
      (request : JwkDeleteRequest) (r : Row) → r.deleted_at ≡ none → IsLater r (revoke x request r)
  IsLater-revoke request r none_yet = record {
    id = refl;
    private_key = refl;
    public_key = refl;
    usage = refl;
    created_at = refl;
    expires_at = refl;
    deletion = inl none_yet;
  }

  revoke_all-Remembers :
      (request : JwkDeleteRequest) (w : World) (rows : List Row)
      → Remembers rows (revoke_all x request w.db_time rows)
  unfolding is_deletable
  revoke_all-Remembers request w [] r h = absurd h
  revoke_all-Remembers request w (q ∷ rows) r (inr h) =
      let (s, found, later) = revoke_all-Remembers request w rows r h in (s, inr found, later)
  revoke_all-Remembers request w (q ∷ rows) r (inl e) =
      elim (Bool-cases (targets request w.db_time q)) [
        | inl t ↦
            let still = (targets_iff x request w.db_time q).0 t in
            (
              revoke x request q,
              rw t (inl refl),
              subst (λ p. IsLater p (revoke x request q)) e (IsLater-revoke request q still.1),
            )
        | inr t ↦ (q, rw t (inl refl), subst (λ p. IsLater p q) e (IsLater-refl q))
      ]

  Move-Remembers : (w v : World) → Move x w v → Remembers w.rows v.rows
  Move-Remembers w v (idle same _) r h = (r, rw same h, IsLater-refl r)
  Move-Remembers w v (add row same _ _ _ _) r h =
      (r, rw same (Any-append_left (λ q. q ≡ r) w.rows (row ∷ []) h), IsLater-refl r)
  Move-Remembers w v (retract request same _) r h =
      rw same (revoke_all-Remembers request w w.rows r h)

  Move-IsTable : (w v : World) → Move x w v → IsTable w.rows → IsTable v.rows
  Move-IsTable w v (idle same _) table = rw same table
  Move-IsTable w v (add row same fresh filled _ _) table =
      rw same (IsTable-append w.rows row table fresh filled)
  Move-IsTable w v (retract request same _) table =
      rw same (IsTable-revoke_all x request w.db_time w.rows table)

  pub Move-db_time : (w v : World) → Move x w v → w.db_time ≤ v.db_time
  Move-db_time w v (idle _ onward) = onward
  Move-db_time w v (add _ _ _ _ _ onward) = onward
  Move-db_time w v (retract _ _ onward) = onward

pub Reach-db_time : {x : Externals} {w v : World} → Reach x w v → w.db_time ≤ v.db_time
Reach-db_time {w = w} here = omega arith
Reach-db_time {x} {w} {v} (next {u = u} reach move) =
    omega (arith, Reach-db_time reach, Move-db_time x u v move)

-- Whatever moves follow, the table keeps its constraints; every row stays, as the same key with the
-- same dates, usage and texts, and once it is marked as deleted its mark is never changed; and the
-- database's clock does not go back.
pub Reach-Remembers :
    {x : Externals} {w v : World}
    → Reach x w v
    → IsTable w.rows
    → IsTable v.rows × Remembers w.rows v.rows × (w.db_time ≤ v.db_time)
Reach-Remembers {w = w} here table = (table, λ r h. (r, h, IsLater-refl r), omega arith)
Reach-Remembers {x} {w} {v} (next {u = u} reach move) table =
    let (table', remembers, _) = Reach-Remembers reach table in
    (
      Move-IsTable x u v move table',
      λ r h.
          let (s, found, later) = remembers r h in
          let (t, found', later') = Move-Remembers x u v move s found in
          (t, found', IsLater-trans r s t later later'),
      Reach-db_time (next reach move),
    )
