-- ===== src/Submission/Sound/Releasing.antt =====
-- The release of a payload keeps a submission queue well formed
-- (src/backend/execution_submission_queue.cc).
use glimmer.Prelude.{
  ℕ, ◌+◌, ◌≡◌, refl, Bool, true, false, not, ◌||◌, Option, none, some, List, [], ◌∷◌, arith,
  if◌then◌else◌, lookup, nat_eq, sub64, get_elem?, length,
}
use glimmer.Submission.{Entry, Payload, SubmissionQueue, put_entry}
use glimmer.Submission.Release.{finish_release, detach_found, detach_from}
use glimmer.Submission.Run.{System, detached_to, release_at, drop_at}
use glimmer.Submission.Entries.{
  all-lookup, all-assign, lookup_assigned, total-assign, length-assign, ascends-assign, burden,
  lookup_bounded,
}
use glimmer.Submission.Effect.{is_coherent, is_spent, Effect}
use glimmer.Submission.Effect.Dropping.{finish_release-Effect}
use glimmer.Submission.Sound.{IsSound, bound, size}
use glimmer.Submission.Sound.Spent.{all_spent, put_spent}
use glimmer.Submission.Sound.System.{
  in_flight, IsSoundSystem, effect-IsSoundSystem, in_flight-drop, spent-drop, spent-get_elem?,
  all_spent-relabel,
}

-- The first section of a release: the bytes pass to the thread.
detached_entry-is_coherent :
    (e : Entry)
    → is_coherent e ≡ true
    → e.is_releasing_payload ≡ true
    → is_coherent (record e { payload = none }) ≡ true
detached_entry-is_coherent e v g = ground arith

detach_entry-IsSound :
    (held k : ℕ) (e : Entry) (p : Payload) (q : SubmissionQueue)
    → IsSound held q
    → lookup k q.entries ≡ some e
    → e.is_releasing_payload ≡ true
    → e.payload ≡ some p
    → IsSound (length p.parameters + held) (put_entry k (record e { payload = none }) q)
detach_entry-IsSound held k e p q v l r h =
    let e' : Entry = record e { payload = none } in
    record {
      accounted = ground (arith, v.accounted, total-assign size k e e' q.entries l);
      within = v.within;
      word = v.word;
      few = ground (arith, v.few, length-assign k e' q.entries);
      ordered = ascends-assign 1 (bound q) k e' q.entries v.ordered;
      next = v.next;
      single = ground (arith, v.single, total-assign burden k e e' q.entries l);
      coherent =
          all-assign is_coherent k e' q.entries v.coherent
            (detached_entry-is_coherent e (all-lookup is_coherent k e q.entries v.coherent l) r);
    }

put_all_spent :
    (j : ℕ) (e e' : Entry) (q : SubmissionQueue) (detached : List (ℕ × ℕ))
    → lookup j q.entries ≡ some e
    → not (is_spent e) || is_spent e' ≡ true
    → all_spent q detached ≡ true
    → all_spent (put_entry j e' q) detached ≡ true
put_all_spent j e e' q [] l d h = refl
put_all_spent j e e' q ((k, bytes) ∷ detached) l d h =
    ground (arith, put_spent k j e e' q l d, put_all_spent j e e' q detached l d)

detach_entry-spent :
    (held k : ℕ) (e : Entry) (p : Payload) (q : SubmissionQueue) (detached : List (ℕ × ℕ))
    → IsSound held q
    → lookup k q.entries ≡ some e
    → e.is_releasing_payload ≡ true
    → e.payload ≡ some p
    → all_spent q detached ≡ true
    → all_spent (put_entry k (record e { payload = none }) q) ((k, length p.parameters) ∷ detached)
      ≡ true
detach_entry-spent held k e p q detached v l r h d =
    let e' : Entry = record e { payload = none } in
    ground (
      arith,
      all-lookup is_coherent k e q.entries v.coherent l,
      lookup_assigned k e e' q.entries l,
      lookup_bounded 1 (bound q) k e q.entries v.ordered l,
      put_all_spent k e e' q detached l,
    )

detach_from-IsSoundSystem :
    (s : System) (k : ℕ) (e : Entry) (o : Option Payload) (releasing : Bool)
    → lookup k s.queue.entries ≡ some e
    → e.payload ≡ o
    → e.is_releasing_payload ≡ releasing
    → IsSoundSystem s
    → IsSoundSystem
        (detached_to k s (if releasing then detach_from k e o s.queue else (s.queue, none)))
unfolding in_flight
detach_from-IsSoundSystem s k e o false l h r v = v
detach_from-IsSoundSystem s k e none true l h r v = v
detach_from-IsSoundSystem s k e (some p) true l h r v = record {
  commands = detach_entry-IsSound (in_flight s.detached) k e p s.queue v.commands l r h;
  spent =
      detach_entry-spent (in_flight s.detached) k e p s.queue s.detached v.commands l r h v.spent;
  host_accounted = v.host_accounted;
  host_within = v.host_within;
  host_word = v.host_word;
}

pub detach_found-IsSoundSystem :
    (s : System) (k : ℕ) (o : Option Entry)
    → lookup k s.queue.entries ≡ o
    → IsSoundSystem s
    → IsSoundSystem (detached_to k s (detach_found k o s.queue))
detach_found-IsSoundSystem s k none l v = v
detach_found-IsSoundSystem s k (some e) l v =
    detach_from-IsSoundSystem s k e e.payload e.is_releasing_payload l refl refl v

abbrev pub refunded : ℕ → SubmissionQueue → SubmissionQueue
refunded bytes q = record q { parameter_bytes = sub64 q.parameter_bytes bytes }

-- The second section: once the bytes are refunded, the rest is an effect.
refunded-IsSoundSystem :
    (s : System) (i k bytes : ℕ)
    → get_elem? s.detached i ≡ some (k, bytes)
    → IsSoundSystem s
    → IsSoundSystem (record s { queue = refunded bytes s.queue; detached = drop_at s.detached i })
refunded-IsSoundSystem s i k bytes h v =
    let less = in_flight-drop i k bytes s.detached h in
    let c = v.commands in
    record {
      commands = record {
        accounted = ground (arith, c.accounted, c.within, c.word, less);
        within = ground (arith, c.accounted, c.within, c.word, less);
        word = c.word;
        few = c.few;
        ordered = c.ordered;
        next = c.next;
        single = c.single;
        coherent = c.coherent;
      };
      spent = ground (
        arith,
        all_spent-relabel s.queue (refunded bytes s.queue).parameter_bytes s.queue.host_bytes
            (drop_at s.detached i),
        spent-drop i s.queue s.detached v.spent,
      );
      host_accounted = v.host_accounted;
      host_within = v.host_within;
      host_word = v.host_word;
    }

pub release_at_effect :
    (s : System) (i k bytes : ℕ)
    → get_elem? s.detached i ≡ some (k, bytes)
    → IsSoundSystem s
    → Effect (refunded bytes s.queue) (release_at i (some (k, bytes)) s).queue
      × IsSoundSystem (record s { queue = refunded bytes s.queue; detached = drop_at s.detached i })
unfolding finish_release
release_at_effect s i k bytes h v = (
  finish_release-Effect k (refunded bytes s.queue) v.commands.coherent
      (ground (arith, spent-get_elem? i k bytes s.queue s.detached v.spent h)),
  refunded-IsSoundSystem s i k bytes h v,
)

pub release_at-IsSoundSystem :
    (s : System) (i k bytes : ℕ)
    → get_elem? s.detached i ≡ some (k, bytes)
    → IsSoundSystem s
    → IsSoundSystem (release_at i (some (k, bytes)) s)
release_at-IsSoundSystem s i k bytes h v =
    let (effect, sound) = release_at_effect s i k bytes h v in effect-IsSoundSystem _ effect sound
