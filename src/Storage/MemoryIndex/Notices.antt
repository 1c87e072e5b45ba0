-- ===== src/Storage/MemoryIndex/Notices.antt =====
-- The callbacks of src/storage/memory-index.ts: whoever follows `onInsert` and `onRemove` has the
-- events that the index stores.
use nostr_js.Base.{
  ◌≡◌, refl, none, List, [], ◌∷◌, ◌++◌, arith, Text, text_eq, eq_iff, Option-cases, inl, inr, sym,
  ◌∙◌, ap, map,
}
use nostr_js.Runtime.Map
use nostr_js.Runtime.Map.{Map}
use nostr_js.Core.Event.{Event}
use nostr_js.Storage.MemoryIndex.{
  MemoryIndex, Notice, inserted, removed, index_insert, index_remove, remove_found, remove_tables,
  insert_tables,
}
use nostr_js.Storage.MemoryIndex.Invariant.{IsKeyed, id_of_get, set-IsKeyed, delete-IsKeyed}
use nostr_js.Storage.MemoryIndex.Methods.{clear, set_outbox_bound}
use nostr_js.Storage.MemoryIndex.Keeps.{put-keeps, remove-keeps, evict-keeps}
use nostr_js.Storage.MemoryIndex.Writes.{Fits}
use nostr_js.Storage.MemoryIndex.Reach.{
  Reachable, start, next, Step, put_step, remove_step, evict_step, bound_step, clear_step,
  Reachable-IsIndexed,
}

-- An observer that keeps what it is told.
unfoldable pub follow : Map Text Event → List Notice → Map Text Event
follow m [] = m
follow m (inserted e ∷ ns) = follow (Map.set m e.id e) ns
follow m (removed e ∷ ns) = follow (Map.delete m e.id) ns

follow-append :
    (m : Map Text Event) (ns ms : List Notice) → follow m (ns ++ ms) ≡ follow (follow m ns) ms
unfolding follow
follow-append m [] ms = refl
follow-append m (inserted e ∷ ns) ms = follow-append (Map.set m e.id e) ns ms
follow-append m (removed e ∷ ns) ms = follow-append (Map.delete m e.id) ns ms

-- The observer's map is the stored one.
abbrev pub IsFollowed : MemoryIndex → Type 0
IsFollowed s = follow [] s.notices ≡ s.by_id

index_insert-IsFollowed :
    (e : Event) (s : MemoryIndex) → IsFollowed s → IsFollowed (index_insert e s)
unfolding index_insert insert_tables follow
index_insert-IsFollowed e s f =
    follow-append [] s.notices (inserted e ∷ []) ∙ ap (λ m. Map.set m e.id e) f

index_remove-IsFollowed :
    (id : Text) (s : MemoryIndex)
    → IsKeyed s.by_id
    → IsFollowed s
    → IsFollowed (index_remove id s).1
unfolding index_remove remove_tables follow
index_remove-IsFollowed id s k f = elim (Option-cases (Map.get s.by_id id)) [
  | inl absent ↦ rw (absent, remove_found) f
  | inr (x, found) ↦
      rw (found, remove_found)
        (follow-append [] s.notices (removed x ∷ [])
          ∙ ap (λ m. Map.delete m x.id) f
          ∙ ap (λ j. Map.delete s.by_id j) (id_of_get s.by_id id x k found))
]

-- `clear` reports every stored event.
delete_absent : (m : Map Text Event) (k : Text) → Map.get m k ≡ none → Map.delete m k ≡ m
unfolding Map.get Map.delete
delete_absent [] k h = refl
delete_absent ((j, x) ∷ m) k h = ground (arith, delete_absent m k)

delete_head :
    (x : Event) (m : Map Text Event) (j i : Text)
    → i ≡ j
    → Map.get m j ≡ none
    → Map.delete ((j, x) ∷ m) i ≡ m
unfolding Map.delete
delete_head x m j i h absent =
    ground (arith, eq_iff j i, sym h, ap (λ k. Map.delete m k) h, delete_absent m j absent)

follow_all :
    (m : Map Text Event) → IsKeyed m → Map.IsUnique m → follow m (map removed (Map.values m)) ≡ []
unfolding follow Map.delete
follow_all [] k u = refl
follow_all ((j, x) ∷ m) k u =
    ap (λ n. follow n (map removed (Map.values m))) (delete_head x m j x.id k.0 u.0)
    ∙ follow_all m k.1 u.1

abbrev Tracks : MemoryIndex → Type 0
Tracks s = IsKeyed s.by_id × IsFollowed s

on_insert : (e : Event) (s : MemoryIndex) → Tracks s → Tracks (index_insert e s)
unfolding index_insert insert_tables
on_insert e s t = (set-IsKeyed s.by_id e t.0, index_insert-IsFollowed e s t.1)

index_remove-IsKeyed :
    (id : Text) (s : MemoryIndex) → IsKeyed s.by_id → IsKeyed (index_remove id s).1.by_id
unfolding index_remove remove_tables
index_remove-IsKeyed id s k = elim (Option-cases (Map.get s.by_id id)) [
  | inl absent ↦ rw (absent, remove_found) k
  | inr (x, found) ↦ rw (found, remove_found) (delete-IsKeyed s.by_id id k)
]

on_remove : (id : Text) (s : MemoryIndex) → Tracks s → Tracks (index_remove id s).1
on_remove id s t = (index_remove-IsKeyed id s t.0, index_remove-IsFollowed id s t.0 t.1)

Step-Tracks : {s u : MemoryIndex} → Step s u → Fits s → Tracks s → Tracks u
unfolding clear set_outbox_bound
Step-Tracks {s} (put_step marked e) i t =
    put-keeps Tracks on_insert on_remove (λ s w d b p. p) marked e s t
Step-Tracks {s} (remove_step ids) i t =
    remove-keeps Tracks on_insert on_remove (λ s w d b p. p) ids s t
Step-Tracks {s} (evict_step ids) i t =
    evict-keeps Tracks on_insert on_remove (λ s w d b p. p) ids s t
Step-Tracks (bound_step pubkey kind bound) i t = t
Step-Tracks {s} clear_step i t = (
  tt,
  follow-append [] s.notices (map removed (Map.values s.by_id))
      ∙ ap (λ m. follow m (map removed (Map.values s.by_id))) t.1
      ∙ follow_all s.by_id i.keyed i.unique,
)

Reachable-Tracks : {s : MemoryIndex} → Reachable s → Tracks s
unfolding follow
Reachable-Tracks (start a b) = (tt, refl)
Reachable-Tracks (next r step) = Step-Tracks step (Reachable-IsIndexed r) (Reachable-Tracks r)

-- In every reachable state, an observer that sets what `onInsert` reports and deletes what
-- `onRemove` reports, in order from an empty map, has exactly the stored events.
pub follow-notices : {s : MemoryIndex} → Reachable s → follow [] s.notices ≡ s.by_id
follow-notices r = (Reachable-Tracks r).1
