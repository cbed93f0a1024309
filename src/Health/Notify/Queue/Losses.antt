-- ===== src/Health/Notify/Queue/Losses.antt =====
-- What the operations on the retry queue drop and leave: pkg/health/notify/notify.go.
use tgshd.Base.{
  ℕ, ◌+◌, ◌-◌, String, List, [], ◌∷◌, ◌++◌, map, ◌≡◌, refl, ap, ◌∙◌, length, take-append-drop,
}
use tgshd.Health.Types.{Time}
use tgshd.Health.Notify.{Runes, QueuedMessage, Message, max_queue}
use tgshd.Health.Notify.Queue.{
  Outcome, Notifier, track, trim, queued_message, enqueue_tracked, move_resolved, top_id, renumber,
  merge,
}
use tgshd.Health.Notify.Queue.Order.{track-same}

-- A message but for its id, which a merge renumbers.
unfoldable pub without_id : QueuedMessage → QueuedMessage
without_id m = record m { id = 0 }

map-append {ℓ κ} :
    {A : Type ℓ} {B : Type κ} (f : A → B) (xs ys : List A) → map f (xs ++ ys) ≡ map f xs ++ map f ys
map-append f [] ys = refl
map-append f (x ∷ xs) ys = ap (λ z. f x ∷ z) (map-append f xs ys)

map-renumber :
    (top : ℕ) (ms : List QueuedMessage) → map without_id (renumber top ms) ≡ map without_id ms
unfolding renumber without_id
map-renumber top [] = refl
map-renumber top (m ∷ ms) = ap (λ z. without_id m ∷ z) (map-renumber (top + 1) ms)

-- A queued message is queued at the end, and what the bound drops comes from the front.
pub enqueue-keeps :
    (now : Time) (msg : Message) (channel : String) (text : Runes) (o : Outcome) (n : Notifier)
    → let r = enqueue_tracked now msg channel text o n in
      r.0 ++ r.1.queue ≡ n.queue ++ (queued_message n.next_id now msg channel text ∷ [])
unfolding enqueue_tracked trim
enqueue-keeps now msg channel text o n =
    let m = queued_message n.next_id now msg channel text in
    let next : Notifier = record n { queue = n.queue ++ (m ∷ []); next_id = n.next_id + 1 } in
    take-append-drop (length (track n.next_id o next).queue - max_queue)
      (track n.next_id o next).queue
    ∙ (track-same n.next_id o next).0

-- A late load of the stored queue loses and doubles nothing: what it drops for the bound and what
-- it leaves queued are, in order and but for the ids, the stored messages and then those queued in
-- memory.
pub merge-keeps :
    (stored : List QueuedMessage) (n : Notifier)
    → map without_id ((merge stored n).0 ++ (merge stored n).1.queue)
      ≡ map without_id stored ++ map without_id n.queue
unfolding merge trim move_resolved
merge-keeps stored n =
    let all = stored ++ renumber (top_id 0 stored) n.queue in
    ap (map without_id) (take-append-drop (length all - max_queue) all)
    ∙ map-append without_id stored (renumber (top_id 0 stored) n.queue)
    ∙ ap (λ z. map without_id stored ++ z) (map-renumber (top_id 0 stored) n.queue)
