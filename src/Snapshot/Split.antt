-- ===== src/Snapshot/Split.antt =====
-- What retention keeps of the agent's snapshots, and what the status lists of them
-- (internal/usecase/hermesagent_snapshot.go).
use mathlib.Core.List.{Perm, append-nil}
use mathlib.Core.List.Perm
use hermes_agent_operator.Prelude.{
  ℕ, ◌≤◌, List, [], ◌∷◌, ◌++◌, ◌≡◌, ◌≢◌, All, All-append_right, All-imp, length, length-take, take,
  drop, take-append-drop, min, arith, leb, Bool-cases, inl, inr,
}
use hermes_agent_operator.Api.Agent.{SnapshotRef}
use hermes_agent_operator.Kube.Client.{VolumeSnapshot}
use hermes_agent_operator.Snapshot.{newer, insert_sorted, sort_newest_first, split_snapshots}

abbrev pub created : VolumeSnapshot → ℕ
created snap = snap.meta.creation_timestamp

-- No later element is newer.
abbrev pub IsNewestFirst : List VolumeSnapshot → Type 0
IsNewestFirst [] = Unit
IsNewestFirst (x ∷ xs) = All (λ y. created y ≤ created x) xs × IsNewestFirst xs

insert_sorted-perm :
    (x : VolumeSnapshot) (xs : List VolumeSnapshot) → Perm (insert_sorted x xs) (x ∷ xs)
unfolding insert_sorted
insert_sorted-perm x [] = Perm.refl (x ∷ [])
insert_sorted-perm x (y ∷ ys) = elim (Bool-cases (newer y x)) [
  | inl e ↦ rw e (Perm.trans (Perm.cons y (insert_sorted-perm x ys)) (Perm.swap x y ys))
  | inr e ↦ rw e (Perm.refl (x ∷ y ∷ ys))
]

pub sort_newest_first-perm : (xs : List VolumeSnapshot) → Perm (sort_newest_first xs) xs
unfolding sort_newest_first
sort_newest_first-perm [] = Perm.refl []
sort_newest_first-perm (x ∷ xs) =
    Perm.trans (insert_sorted-perm x (sort_newest_first xs))
      (Perm.cons x (sort_newest_first-perm xs))

-- A bound on the list and on `x` bounds the list with `x` inserted.
insert_sorted-All :
    (n : ℕ) (x : VolumeSnapshot) (xs : List VolumeSnapshot)
    → created x ≤ n
    → All (λ y. created y ≤ n) xs
    → All (λ y. created y ≤ n) (insert_sorted x xs)
unfolding insert_sorted
insert_sorted-All n x [] h k = (h, tt)
insert_sorted-All n x (y ∷ ys) h k = elim (Bool-cases (newer y x)) [
  | inl e ↦ rw e (k.0, insert_sorted-All n x ys h k.1)
  | inr e ↦ rw e (h, (k.0, k.1))
]

insert_sorted-IsNewestFirst :
    (x : VolumeSnapshot) (xs : List VolumeSnapshot)
    → IsNewestFirst xs
    → IsNewestFirst (insert_sorted x xs)
unfolding insert_sorted
insert_sorted-IsNewestFirst x [] h = (tt, tt)
insert_sorted-IsNewestFirst x (y ∷ ys) h = elim (Bool-cases (newer y x)) [
  | inl e ↦
      rw e (
        insert_sorted-All (created y) x ys (ground arith) h.0,
        insert_sorted-IsNewestFirst x ys h.1,
      )
  | inr e ↦
      let first : created y ≤ created x = ground arith in
      rw e (
        (
          first,
          All-imp (λ z. created z ≤ created y) (λ z. created z ≤ created x) ys (λ z q. omega arith)
              h.0,
        ),
        h,
      )
]

pub sort_newest_first-IsNewestFirst :
    (xs : List VolumeSnapshot) → IsNewestFirst (sort_newest_first xs)
unfolding sort_newest_first
sort_newest_first-IsNewestFirst [] = tt
sort_newest_first-IsNewestFirst (x ∷ xs) =
    insert_sorted-IsNewestFirst x (sort_newest_first xs) (sort_newest_first-IsNewestFirst xs)

-- In a sorted list, whatever stands before a cut is at least as new as whatever stands behind it.
IsNewestFirst-append :
    (xs ys : List VolumeSnapshot)
    → IsNewestFirst (xs ++ ys)
    → All (λ x. All (λ y. created y ≤ created x) ys) xs
IsNewestFirst-append [] ys h = tt
IsNewestFirst-append (x ∷ xs) ys h =
    (All-append_right (λ y. created y ≤ created x) xs ys h.0, IsNewestFirst-append xs ys h.1)

-- What retention promises of a split into live and deprecated.
pub record IsRetained (snapshots : List VolumeSnapshot) (retention : ℕ)
    (live deprecated : List VolumeSnapshot) : Type 0 where
  pub complete : Perm (live ++ deprecated) snapshots
  pub kept : length live ≡ min retention (length (live ++ deprecated))
  pub newest : All (λ x. All (λ y. created y ≤ created x) deprecated) live

All-nil : (xs : List VolumeSnapshot) → All (λ x. All (λ y. created y ≤ created x) []) xs
All-nil [] = tt
All-nil (x ∷ xs) = (tt, All-nil xs)

-- Splitting loses and invents no snapshot, keeps as many as retention says or all if there are fewer,
-- and no deprecated snapshot was created after a live one.
pub split_snapshots-IsRetained :
    (snapshots : List VolumeSnapshot) (retention : ℕ)
    → IsRetained snapshots retention
        (split_snapshots snapshots retention).0
        (split_snapshots snapshots retention).1
unfolding split_snapshots
split_snapshots-IsRetained snapshots retention =
    let sorted = sort_newest_first snapshots in
    let perm = sort_newest_first-perm snapshots in
    elim (Bool-cases (leb (length sorted) retention)) [
      | inl e ↦ rw e (record {
        complete = rw append-nil perm;
        kept = rw append-nil (ground arith);
        newest = All-nil sorted;
      })
      | inr e ↦
          let whole = take-append-drop retention sorted in
          rw e (record {
            complete = rw whole perm;
            kept = rw whole (length-take retention sorted);
            newest =
                IsNewestFirst-append (take retention sorted) (drop retention sorted)
                  (rw whole (sort_newest_first-IsNewestFirst snapshots));
          })
    ]

abbrev pub IsListed : SnapshotRef → Type 0
IsListed r = (r.name ≢ "") × (r.creation_time ≢ 0)
