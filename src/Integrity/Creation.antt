-- ===== src/Integrity/Creation.antt =====
-- The creation of a thread with its first post, all or nothing.
use masonic_core.Prelude.{
  ℕ, ◌≡◌, refl, sym, ap, ◌∙◌, subst, inl, inr, true, false, List, [], ◌∷◌, arith, ◌==◌, ==_iff,
  Bool-cases, count_rows, All,
}
use masonic_core.Models.{Thread, NewThread, Post, NewPost}
use masonic_core.World.{Database, World, Outcome, ok, final, stamp, statement}
use masonic_core.Store.Cascade.{has_thread}
use masonic_core.Store.Thread
use masonic_core.Store.Thread.{insert_thread}
use masonic_core.Services.Thread as ThreadService
use masonic_core.Services.Thread.{CreateThreadInput}
use masonic_core.Integrity.{HasRefs}
use masonic_core.Integrity.Threads.{insert_thread-eq-rows}
use masonic_core.Integrity.Counts.{AllCounted, add_post-AllCounted}
use masonic_core.Integrity.Calls.{get_group-Keeps, thread_summary-Keeps, create_body-Keeps}
use masonic_core.World.Rules.{
  Keeps, keeps_rules, Keeps-transaction-ok, ok-inj, continue-eq-ok, statement-eq-ok,
}

-- Nothing refers to a thread that does not exist.
no_posts :
    (k : ℕ) (d : Database) (ps : List Post)
    → All (λ (p : Post). has_thread p.thread_id d ≡ true) ps
    → has_thread k d ≡ false
    → count_rows (λ p. p.thread_id == k) ps ≡ 0
unfolding count_rows
no_posts k d [] a h = refl
no_posts k d (p ∷ ps) (b, a) h = elim (Bool-cases (p.thread_id == k)) [
  | inl e ↦
      let same : p.thread_id ≡ k = (==_iff p.thread_id k).0 e in
      cc (ap (λ (i : ℕ). has_thread i d) same)
  | inr e ↦ ground (arith, no_posts k d ps a h)
]

abbrev pub IsConsistent : Database → Type 0
IsConsistent d = HasRefs d × AllCounted d.posts d.threads

insert-AllCounted :
    (nt : NewThread) (w : World) (t : Thread) (v : World)
    → statement (insert_thread nt) w ≡ ok t v
    → IsConsistent w.db
    → AllCounted v.db.posts v.db.threads
insert-AllCounted nt w t v e (r, h) =
    let (d, q, same) = statement-eq-ok (insert_thread nt) w t v e in
    let (grown, _, _, fresh, empty) = insert_thread-eq-rows nt (stamp w) w.db t d q in
    subst (λ (b : Database). AllCounted b.posts b.threads)
      (sym (ap (λ (u : World). u.db) same ∙ grown))
      (empty ∙ sym (no_posts t.id w.db w.db.posts r.posts fresh), h)

body-AllCounted :
    (nt : NewThread) (np : NewPost) (w : World) (t : Thread) (w' : World)
    → Thread.create_body nt np w ≡ ok t w'
    → IsConsistent w.db
    → AllCounted w'.db.posts w'.db.threads
unfolding Thread.create_body
body-AllCounted nt np w t w' h c =
    let (th, v, e, g) = continue-eq-ok _ _ t w' h in
    let (p, v2, e2, g2) = continue-eq-ok _ _ t w' g in
    let (x, v3, e3, g3) = continue-eq-ok _ _ t w' g2 in
    let done =
      add_post-AllCounted (record np { thread_id = th.id }) v v2 p x v3 e2 e3
        (insert-AllCounted nt w th v e c) in
    subst (λ (u : World). AllCounted u.db.posts u.db.threads) (ok-inj _ t v3 w' g3).1 done

ap_final :
    (r : Outcome Thread) (t : Thread) (w' : World)
    → r ≡ ok t w'
    → HasRefs (final r).db
    → HasRefs w'.db
ap_final r t w' h k = subst (λ (s : Outcome Thread). HasRefs (final s).db) h k

create_rows-IsConsistent :
    (nt : NewThread) (np : NewPost) → Keeps IsConsistent (Thread.create nt np)
unfolding Thread.create
create_rows-IsConsistent nt np = Keeps-transaction-ok (Thread.create_body nt np) (λ w t w' h c. (
  ap_final (Thread.create_body nt np w) t w' h ((create_body-Keeps nt np).at w c.0),
  body-AllCounted nt np w t w' h c,
))

create-Keeps : (input : CreateThreadInput) → Keeps IsConsistent (ThreadService.create input)
unfolding ThreadService.create
create-Keeps input =
    search (keeps_rules, create_rows-IsConsistent, get_group-Keeps, thread_summary-Keeps) depth 16

-- Whether or not the creation of a thread succeeds, and wherever it fails: if all references were
-- intact and every post count was the number of the thread's posts before, so it is after.
pub create_thread-IsConsistent :
    (input : CreateThreadInput) (w : World)
    → IsConsistent w.db
    → IsConsistent (final (ThreadService.create input w)).db
create_thread-IsConsistent input w h = (create-Keeps input).at w h
