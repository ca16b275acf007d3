-- ===== src/Migrations/Downgrade.antt =====
-- The downgrade of a revision takes its upgrade back.
use mathlib.Core.Path.{subst}
use mdmfleetmanagement.Prelude.{List, [], ◌∷◌, ◌++◌, Option, none, some, ◌≡◌, ◌≢◌, refl, ◌∙◌}
use mdmfleetmanagement.Migrations.Schema.{
  Schema, Table, Operation, then_op, apply_all, create_table, drop_table,
}
use mdmfleetmanagement.Migrations.Undo.{
  IsClosed, create_then_drop, create_table-IsClosed, create_then_drop_index,
}
use mdmfleetmanagement.Migrations.Columns.{add_then_drop, rename_then_back}
use mdmfleetmanagement.Migrations.Revisions.{
  Revision, initial_schema, rename_played_at, add_users, provisioning, display_name, custom_id,
  groups, upgrade, downgrade, upgrade_steps, downgrade_steps,
}

-- `gs` takes back what `fs` does.
record Undoes (fs gs : List Operation) : Type 0 where
  back : (s s' : Schema) → IsClosed s → apply_all fs s ≡ some s' → apply_all gs s' ≡ some s

intermediate :
    (f : Operation) (o : Option Schema) (s' : Schema)
    → then_op f o ≡ some s'
    → (s : Schema) × (o ≡ some s) × (f s ≡ some s')
intermediate f none s' h = cc
intermediate f (some s) s' h = (s, refl, h)

apply-snoc :
    (gs : List Operation) (g : Operation) (s m t : Schema)
    → apply_all gs s ≡ some m
    → g m ≡ some t
    → apply_all (gs ++ g ∷ []) s ≡ some t
unfolding apply_all
apply-snoc [] g s m t h k =
    let e : m ≡ s = cc in let q : g s ≡ some t = subst (λ x. g x ≡ some t) e k in rw q refl
apply-snoc (f ∷ gs) g s m t h k =
    let (n, p, q) = intermediate (apply_all gs) (f s) m h in rw p (apply-snoc gs g n m t q k)

-- An operation and what takes it back, before and after others.
Undoes-cons :
    (f g : Operation) (fs gs : List Operation)
    → ((s s' : Schema) → IsClosed s → f s ≡ some s' → g s' ≡ some s)
    → ((s s' : Schema) → IsClosed s → f s ≡ some s' → IsClosed s')
    → Undoes fs gs
    → Undoes (f ∷ fs) (gs ++ g ∷ [])
Undoes-cons f g fs gs u k v = record {
  back = λ s s' c h.
      let (m, p, q) = intermediate (apply_all fs) (f s) s' (unfold apply_all in h) in
      apply-snoc gs g s' m s (v.back m s' (k s m c p) q) (u s m c p);
}

Undoes-one :
    (f g : Operation)
    → ((s s' : Schema) → IsClosed s → f s ≡ some s' → g s' ≡ some s)
    → Undoes (f ∷ []) (g ∷ [])
unfolding apply_all
Undoes-one f g u = record {
  back = λ s s' c h.
      let (m, p, q) = intermediate some (f s) s' h in let b = u s s' c (p ∙ q) in rw b refl;
}

Undoes-create :
    (t : Table) (fs gs : List Operation)
    → Undoes fs gs
    → Undoes (create_table t ∷ fs) (gs ++ drop_table t.name ∷ [])
Undoes-create t fs gs u =
    Undoes-cons (create_table t) (drop_table t.name) fs gs (create_then_drop t)
      (create_table-IsClosed t) u

upgrade-Undoes : (r : Revision) → r ≢ provisioning → Undoes (upgrade_steps r) (downgrade_steps r)
upgrade-Undoes initial_schema n = Undoes-create _ _ _ (
    Undoes-create _ _ _ (
      Undoes-create _ _ _ (
        Undoes-create _ _ _ (
          Undoes-create _ _ _ (
            Undoes-create _ _ _
              (Undoes-create _ _ _ (Undoes-create _ _ _ (Undoes-one _ _ (create_then_drop _)))))))))
upgrade-Undoes rename_played_at n =
    Undoes-one _ _
      λ s s' c h. rename_then_back "broadcast_acks" "played_at" "received_at" s s' c refl h
upgrade-Undoes add_users n = Undoes-one _ _ (create_then_drop _)
upgrade-Undoes provisioning n = absurd (n refl)
upgrade-Undoes display_name n = Undoes-one _ _ (add_then_drop "devices" _)
upgrade-Undoes custom_id n = Undoes-one _ _ (add_then_drop "devices" _)
upgrade-Undoes groups n = Undoes-create _ _ _ (
    Undoes-create _ _ _
      (Undoes-create _ _ _ (Undoes-one _ _ λ s s' c h. create_then_drop_index _ s s' h)))

-- For every revision but that of provisioning: on a schema without references or indexes to what
-- is not there, a downgrade after an upgrade that the database accepted is accepted, and gives the
-- schema back as it was.
pub downgrade-upgrade :
    (r : Revision) (s s' : Schema)
    → r ≢ provisioning
    → IsClosed s
    → upgrade r s ≡ some s'
    → downgrade r s' ≡ some s
unfolding upgrade downgrade
downgrade-upgrade r s s' n c h = (upgrade-Undoes r n).back s s' c h
