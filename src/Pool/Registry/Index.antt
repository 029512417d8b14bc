-- ===== src/Pool/Registry/Index.antt =====
-- The index of the active miners by their payout address.
use mathlib.Core.Option.{some-injective}
use nodejs_pool.Prelude.{
  ◌≤◌, ◌≡◌, ◌≢◌, refl, sym, ap, ◌∙◌, subst, Bool, true, false, not, ◌&&◌, ◌||◌, Option, none, some,
  List, [], ◌∷◌, ◌++◌, String, ◌==◌, str_eq, str_eq_iff, if◌then◌else◌, length, lookup,
  lookup-assign, lookup-remove, arith, Bool-cases, inl, inr,
}
use nodejs_pool.Pool.Registry.{
  Miner, Socket, Registry, RemoveOptions, is_in, add_to, delete_from, ids_of, add_active_miner,
  unlist, unlist_of, destroy_found, destroy_miner_socket, drop_socket_if, remove_unless,
  remove_miner,
}

abbrev pub has_payout : String → Option Miner → Bool
has_payout payout none = false
has_payout payout (some m) = str_eq m.payout payout

-- The index holds, under each address, the ids of the active miners that are paid there.
pub record IsIndexed (s : Registry) : Type 0 where
  pub same :
      (payout id : String)
      → is_in id (ids_of (lookup payout s.active_miners_by_payout))
        ≡ has_payout payout (lookup id s.active_miners)
  pub no_empty : (payout : String) → lookup payout s.active_miners_by_payout ≢ some []

is_in-append :
    (x y : String) (ys : List String) → is_in x (ys ++ y ∷ []) ≡ (str_eq x y || is_in x ys)
is_in-append x y [] = ground arith
is_in-append x y (z ∷ ys) = ground (arith, is_in-append x y ys)

is_in-add_to :
    (x y : String) (ys : List String) → is_in x (add_to y ys) ≡ (str_eq x y || is_in x ys)
unfolding add_to
is_in-add_to x y ys = ground (arith, is_in-append x y ys, str_eq_iff x y)

is_in-delete_from :
    (x y : String) (ys : List String)
    → is_in x (delete_from y ys) ≡ (not (str_eq x y) && is_in x ys)
unfolding delete_from
is_in-delete_from x y [] = ground arith
is_in-delete_from x y (z ∷ ys) =
    ground (arith, is_in-delete_from x y ys, str_eq_iff x y, str_eq_iff x z, str_eq_iff y z)

length-add_to : (x : String) (ys : List String) → 1 ≤ length (add_to x ys)
unfolding add_to
length-add_to x [] = omega arith
length-add_to x (y ∷ ys) = ground arith

add_to-not_empty : (x : String) (ys : List String) → add_to x ys ≢ []
add_to-not_empty x ys e = absurd (omega (arith, subst (λ zs. 1 ≤ length zs) e (length-add_to x ys)))

-- An entry that is written, or not there, is not empty, and the others are as before.
written-not_empty :
    (b : Bool) (ys : List String) (o : Option (List String))
    → ys ≢ []
    → o ≢ some []
    → (if b then some ys else o) ≢ some []
written-not_empty true ys o h k e = h (some-injective ys [] e)
written-not_empty false ys o h k e = k e

removed-not_empty :
    (b : Bool) (o : Option (List String)) → o ≢ some [] → (if b then none else o) ≢ some []
removed-not_empty true o k e = cc
removed-not_empty false o k e = k e

is_in-empty : (x : String) (ys : List String) → length ys ≡ 0 → is_in x ys ≡ false
is_in-empty x [] e = refl
is_in-empty x (y ∷ ys) e = absurd (omega arith)

-- An address without one of its ids, and without an entry where none is left.
is_in-unlist_of :
    (payout q id i : String) (o : Option (List String)) (m : List (String × List String))
    → lookup q m ≡ o
    → is_in i (ids_of (lookup payout (unlist_of q id o m))) ≡ (
        if str_eq payout q
        then not (str_eq i id) && is_in i (ids_of (lookup payout m))
        else is_in i (ids_of (lookup payout m)))
is_in-unlist_of payout q id i none m e = ground (arith, str_eq_iff payout q)
is_in-unlist_of payout q id i (some ids) m e =
    elim (Bool-cases (length (delete_from id ids) == 0)) [
      | inl z ↦
          rw (z, lookup-remove q payout m)
            (ground (
              arith,
              is_in-delete_from i id ids,
              is_in-empty i (delete_from id ids),
              str_eq_iff payout q,
            ))
      | inr z ↦
          rw (z, lookup-assign q payout (delete_from id ids) m)
            (ground (arith, is_in-delete_from i id ids, str_eq_iff payout q))
    ]

unlist_of-no_empty :
    (payout q id : String) (o : Option (List String)) (m : List (String × List String))
    → lookup q m ≡ o
    → lookup payout m ≢ some []
    → lookup payout (unlist_of q id o m) ≢ some []
unlist_of-no_empty payout q id none m e h = h
unlist_of-no_empty payout q id (some ids) m e h =
    elim (Bool-cases (length (delete_from id ids) == 0)) [
      | inl z ↦ rw (z, lookup-remove q payout m) (removed-not_empty (str_eq payout q) _ h)
      | inr z ↦
          rw (z, lookup-assign q payout (delete_from id ids) m)
            (written-not_empty (str_eq payout q) (delete_from id ids) _
              (λ n. ground (arith, ap length n)) h)
    ]

module _ (m : Miner) (s : Registry) (h : IsIndexed s) where
  -- A new miner is indexed under its address: if its id is not active yet, the index stays right.
  pub add_active_miner-IsIndexed :
      (socket : Socket)
      → lookup m.id s.active_miners ≡ none
      → IsIndexed (add_active_miner m socket s)
  unfolding add_active_miner
  add_active_miner-IsIndexed socket new = record {
    same = λ payout id.
        rw
          (
            lookup-assign m.payout payout
                (add_to m.id (ids_of (lookup m.payout s.active_miners_by_payout)))
                s.active_miners_by_payout,
            lookup-assign m.id id m s.active_miners,
          )
          (ground (
            arith,
            is_in-add_to id m.id (ids_of (lookup m.payout s.active_miners_by_payout)),
            h.same payout id,
            h.same m.payout id,
            str_eq_iff payout m.payout,
            str_eq_iff m.payout payout,
            str_eq_iff id m.id,
          ));
    no_empty = λ payout.
        rw
          (lookup-assign m.payout payout
            (add_to m.id (ids_of (lookup m.payout s.active_miners_by_payout)))
            s.active_miners_by_payout)
          (written-not_empty (str_eq payout m.payout) _ _ (add_to-not_empty m.id _)
            (h.no_empty payout));
  }

destroy_found-IsIndexed :
    (id : String) (o : RemoveOptions) (k : Option Socket) (s : Registry)
    → IsIndexed s
    → IsIndexed (destroy_found id o k s)
destroy_found-IsIndexed id o none s h = h
destroy_found-IsIndexed id o (some k) s h = record { same = h.same; no_empty = h.no_empty }

drop_socket-IsIndexed :
    (b : Bool) (id : String) (o : RemoveOptions) (s : Registry)
    → IsIndexed s
    → IsIndexed (drop_socket_if b id o s)
unfolding destroy_miner_socket
drop_socket-IsIndexed true id o s h =
    destroy_found-IsIndexed id o (lookup id s.active_miner_sockets) s h
drop_socket-IsIndexed false id o s h = record { same = h.same; no_empty = h.no_empty }

is_in-unlist :
    (payout q id i : String) (m : List (String × List String))
    → is_in i (ids_of (lookup payout (unlist q id m))) ≡ (
        if str_eq payout q
        then not (str_eq i id) && is_in i (ids_of (lookup payout m))
        else is_in i (ids_of (lookup payout m)))
unfolding unlist
is_in-unlist payout q id i m = is_in-unlist_of payout q id i (lookup q m) m refl

remove_unless-IsIndexed :
    (b : Bool) (m a : Miner) (o : RemoveOptions) (s : Registry)
    → lookup m.id s.active_miners ≡ some a
    → a.payout ≡ m.payout
    → IsIndexed s
    → IsIndexed (remove_unless b m o s).1
unfolding unlist
remove_unless-IsIndexed true m a o s e p h = h
remove_unless-IsIndexed false m a o s e p h =
    drop_socket-IsIndexed o.destroy_socket m.id o _ (record {
      same = λ payout id.
          rw
            (
              is_in-unlist payout m.payout m.id id s.active_miners_by_payout,
              lookup-remove m.id id s.active_miners,
            )
            (ground (
              arith,
              h.same payout id,
              str_eq_iff payout m.payout,
              str_eq_iff m.payout payout,
              str_eq_iff id m.id,
            ));
      no_empty = λ payout.
          unlist_of-no_empty payout m.payout m.id (lookup m.payout s.active_miners_by_payout)
            s.active_miners_by_payout refl (h.no_empty payout);
    })

-- A miner that is active and paid at the address of its object leaves the index as well: if the
-- index was right, it is right after the removal.
pub remove_miner-IsIndexed :
    (m a : Miner) (o : RemoveOptions) (s : Registry)
    → lookup m.id s.active_miners ≡ some a
    → a.payout ≡ m.payout
    → IsIndexed s
    → IsIndexed (remove_miner m o s).1
unfolding remove_miner
remove_miner-IsIndexed m a o s e p h = remove_unless-IsIndexed m.is_removed m a o s e p h

socket_gone :
    (id : String) (o : RemoveOptions) (k : Option Socket) (s : Registry)
    → lookup id s.active_miner_sockets ≡ k
    → lookup id (destroy_found id o k s).active_miner_sockets ≡ none
socket_gone id o none s e = e
socket_gone id o (some k) s e =
    lookup-remove id id s.active_miner_sockets ∙ ground (arith, str_eq_iff id id)

drop_socket-gone :
    (b : Bool) (id : String) (o : RemoveOptions) (s : Registry)
    → lookup id (drop_socket_if b id o s).active_miner_sockets ≡ none
unfolding destroy_miner_socket
drop_socket-gone true id o s = socket_gone id o (lookup id s.active_miner_sockets) s refl
drop_socket-gone false id o s =
    lookup-remove id id s.active_miner_sockets ∙ ground (arith, str_eq_iff id id)

destroy_found-active :
    (id : String) (o : RemoveOptions) (k : Option Socket) (s : Registry)
    → (destroy_found id o k s).active_miners ≡ s.active_miners
destroy_found-active id o none s = refl
destroy_found-active id o (some k) s = refl

drop_socket-active :
    (b : Bool) (id : String) (o : RemoveOptions) (s : Registry)
    → (drop_socket_if b id o s).active_miners ≡ s.active_miners
unfolding destroy_miner_socket
drop_socket-active true id o s = destroy_found-active id o (lookup id s.active_miner_sockets) s
drop_socket-active false id o s = refl

-- A miner object that was not removed before is flagged by the removal, whatever its options, and
-- its id has neither a miner nor a socket afterwards.
pub remove_miner-gone :
    (m : Miner) (o : RemoveOptions) (s : Registry)
    → m.is_removed ≡ false
    → ((remove_miner m o s).0.is_removed ≡ true)
      × (lookup m.id (remove_miner m o s).1.active_miners ≡ none)
      × (lookup m.id (remove_miner m o s).1.active_miner_sockets ≡ none)
unfolding remove_miner
remove_miner-gone m o s e =
    subst
      (λ b.
        ((remove_unless b m o s).0.is_removed ≡ true)
        × (lookup m.id (remove_unless b m o s).1.active_miners ≡ none)
        × (lookup m.id (remove_unless b m o s).1.active_miner_sockets ≡ none))
      (sym e)
      (
        refl,
        ap (lookup m.id) (drop_socket-active o.destroy_socket m.id o _)
            ∙ (lookup-remove m.id m.id s.active_miners ∙ ground (arith, str_eq_iff m.id m.id)),
        drop_socket-gone o.destroy_socket m.id o _,
      )
