-- ===== src/Integrity/Groups.antt =====
-- The statements on groups keep the references.
use masonic_core.Prelude.{
  ℕ, ◌≡◌, refl, ap, ◌∙◌, subst, ◌⊎◌, inl, inr, Bool, true, false, ◌&&◌, not, Option, none, some,
  List, [], ◌∷◌, map, arith, ◌==◌, if◌then◌else◌, Bool-cases, any_row, keep_rows, update_rows,
  has_value, All-map, All-update, All-imp, All-keep, any-update, any-map, any-keep_not,
}
use masonic_core.Models.{Group, NewGroup, Thread}
use masonic_core.World.{Database, Stamp, rows}
use masonic_core.Store.Cascade.{
  has_group, has_thread, has_post, null_or, delete_posts, delete_threads, delete_group,
  forget_parent,
}
use masonic_core.Store.Group.{insert_group, update_group, changed}
use masonic_core.Store.Group
use masonic_core.World.Rules.{KeepsSql}
use masonic_core.Integrity.{HasRefs}
use masonic_core.Integrity.Threads.{delete_threads-HasRefs}

insert_group-eq-rows :
    (ng : NewGroup) (st : Stamp) (d : Database) (g : Group) (d' : Database)
    → insert_group ng st d ≡ rows g d'
    → (d' ≡ record d { groups = g ∷ d.groups })
      × (null_or (λ id. has_group id d) g.parent_id ≡ true)
unfolding insert_group
insert_group-eq-rows ng st d g d' e = ground arith

has_group-cons :
    (g : Group) (d : Database) (id : ℕ)
    → has_group id d ≡ true
    → has_group id (record d { groups = g ∷ d.groups }) ≡ true
unfolding has_group any_row
has_group-cons g d id h = ground arith

null_or-imp :
    (p q : ℕ → Bool) (o : Option ℕ)
    → ((id : ℕ) → p id ≡ true → q id ≡ true)
    → null_or p o ≡ true
    → null_or q o ≡ true
null_or-imp p q none h k = refl
null_or-imp p q (some id) h k = h id k

pub insert_group-HasRefs : (ng : NewGroup) → KeepsSql HasRefs (insert_group ng)
unfolding has_thread has_post
insert_group-HasRefs ng = record {
  at = λ st d g d' e r.
      let (same, there) = insert_group-eq-rows ng st d g d' e in
      rw same (record {
        groups = (
          null_or-imp _ _ g.parent_id (has_group-cons g d) there,
          All-imp _ _ (λ (h : Group). null_or-imp _ _ h.parent_id (has_group-cons g d)) d.groups
              r.groups,
        );
        threads = All-imp _ _ (λ (t : Thread). has_group-cons g d t.group_id) d.threads r.threads;
        posts = r.posts;
        attachments = r.attachments;
      });
}

update_group-eq-rows :
    (id : ℕ) (ng : NewGroup) (st : Stamp) (d : Database) (o : Option Group) (d' : Database)
    → update_group id ng st d ≡ rows o d'
    → (d' ≡ d)
      ⊎ ((d' ≡ record d { groups = update_rows (λ g. g.id == id) (changed st ng) d.groups })
          × (null_or (λ k. has_group k d) ng.parent_id ≡ true))
unfolding update_group
update_group-eq-rows id ng st d o d' e = ground arith

has_group-update :
    (id : ℕ) (ng : NewGroup) (st : Stamp) (d : Database) (k : ℕ)
    → has_group k d ≡ true
    → has_group k (record d { groups = update_rows (λ g. g.id == id) (changed st ng) d.groups })
      ≡ true
unfolding has_group changed
has_group-update id ng st d k h =
    any-update (λ g. g.id == k) (λ g. g.id == id) (changed st ng) (λ g. refl) d.groups ∙ h

parent-update :
    (id : ℕ) (ng : NewGroup) (st : Stamp) (d : Database) (g : Group)
    → null_or (λ k. has_group k d) ng.parent_id ≡ true
    → null_or (λ k. has_group k d) g.parent_id ≡ true
    → null_or
        (λ k.
          has_group k
            (record d { groups = update_rows (λ g. g.id == id) (changed st ng) d.groups }))
        (if g.id == id then changed st ng g else g).parent_id
      ≡ true
unfolding changed
parent-update id ng st d g there h = elim (Bool-cases (g.id == id)) [
  | inl e ↦ rw e (null_or-imp _ _ ng.parent_id (has_group-update id ng st d) there)
  | inr e ↦ rw e (null_or-imp _ _ g.parent_id (has_group-update id ng st d) h)
]

pub update_group-HasRefs : (id : ℕ) (ng : NewGroup) → KeepsSql HasRefs (update_group id ng)
unfolding has_thread has_post
update_group-HasRefs id ng = record {
  at = λ st d o d' e r. elim (update_group-eq-rows id ng st d o d' e) [
    | inl same ↦ rw same r
    | inr (same, there) ↦ rw same (record {
      groups =
          All-update _ _ (λ g. g.id == id) (changed st ng)
            (λ (g : Group) h. parent-update id ng st d g there h) d.groups r.groups;
      threads =
          All-imp _ _ (λ (t : Thread). has_group-update id ng st d t.group_id) d.threads r.threads;
      posts = r.posts;
      attachments = r.attachments;
    })
  ];
}

forget_parent-id : (id : ℕ) (g : Group) → (forget_parent id g).id ≡ g.id
unfolding forget_parent
forget_parent-id id g = ground arith

not_both :
    (k id : ℕ) (gs : List Group)
    → (k == id) ≡ false
    → any_row (λ h. h.id == id && h.id == k) gs ≡ false
unfolding any_row
not_both k id [] e = refl
not_both k id (g ∷ gs) e = ground (arith, not_both k id gs e)

-- A group that goes leaves the others.
has_group-delete :
    (id : ℕ) (d : Database) (k : ℕ)
    → has_group k d ≡ true
    → (k == id) ≡ false
    → any_row (λ h. h.id == k) (map (forget_parent id) (keep_rows (λ h. not (h.id == id)) d.groups))
      ≡ true
unfolding has_group
has_group-delete id d k h e =
    any-map (λ h. h.id == k) (forget_parent id)
      (λ g. ap (λ (i : ℕ). i == k) (forget_parent-id id g)) _
    ∙ any-keep_not (λ h. h.id == k) (λ h. h.id == id) d.groups h (not_both k id d.groups e)

forgotten :
    (id : ℕ) (g : Group) (o : Option ℕ)
    → g.parent_id ≡ o
    → (forget_parent id g).parent_id ≡ (if has_value o id then none else o)
unfolding forget_parent
forgotten id g o e = ground arith

-- It is no longer a parent.
parent-delete :
    (id : ℕ) (d : Database) (g : Group) (o : Option ℕ)
    → g.parent_id ≡ o
    → null_or (λ k. has_group k d) o ≡ true
    → null_or
        (λ k.
          any_row
            (λ h. h.id == k)
            (map (forget_parent id) (keep_rows (λ h. not (h.id == id)) d.groups)))
        (forget_parent id g).parent_id
      ≡ true
parent-delete id d g none e h = rw (forgotten id g none e) refl
parent-delete id d g (some k) e h = elim (Bool-cases (k == id)) [
  | inl same ↦ rw (forgotten id g (some k) e) (rw same refl)
  | inr other ↦ rw (forgotten id g (some k) e) (rw other (has_group-delete id d k h other))
]

delete_group-HasRefs : (id : ℕ) (d : Database) → HasRefs d → HasRefs (delete_group id d)
unfolding delete_group delete_threads delete_posts has_group has_thread has_post
delete_group-HasRefs id d r =
    let s = delete_threads-HasRefs (λ t. t.group_id == id) d r in
    record {
      groups =
          All-map _ _ (forget_parent id) (λ (g : Group) h. parent-delete id d g g.parent_id refl h)
            _ (All-keep _ _ (λ (g : Group). not (g.id == id)) (λ g e h. h) d.groups r.groups);
      threads =
          All-keep _ _ (λ (t : Thread). not (t.group_id == id))
            (λ (t : Thread) e h. has_group-delete id d t.group_id h (ground arith)) d.threads
            r.threads;
      posts = s.posts;
      attachments = s.attachments;
    }

pub delete_group_row-HasRefs : (id : ℕ) → KeepsSql HasRefs (Group.delete_row id)
unfolding Group.delete_row
delete_group_row-HasRefs id = record {
  at = λ st d n d' e r.
      let same : delete_group id d ≡ d' = cc in subst HasRefs same (delete_group-HasRefs id d r);
}

pub ruleset group_rules = (insert_group-HasRefs, update_group-HasRefs, delete_group_row-HasRefs)
