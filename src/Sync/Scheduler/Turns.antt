-- ===== src/Sync/Scheduler/Turns.antt =====
-- sync/sync_scheduler.go: every peer in the queue of the periodic scheduler gets its turn.
use devicedb.Common.{
  ℕ, zero, suc, ◌+◌, ◌<◌, ◌≡◌, refl, sym, ap, ◌∙◌, arith, false, Option, none, some, List, [], ◌∷◌,
  ◌++◌, Bytes, length, get_elem?, ◌==◌, nat_eq, bytes_eq, subst,
}
use devicedb.Sync.Scheduler.{
  Peer, PeriodicSyncScheduler, bucket_of, add_peer, next_sync, schedule, SchedulerCall,
  call_add_peer, call_remove_peer, call_schedule, call_advance, call, calls,
}
use devicedb.Sync.Scheduler.Valid.{
  IsReady, Within, IsValid, id_of, found, Within-middle, add_peer-Follows, schedule-Follows,
  advance-Follows,
}

next_sync_lem :
    (s : PeriodicSyncScheduler) (a : ℕ) (after : List ℕ)
    → IsValid s
    → s.queue ≡ a ∷ after
    → (bucket : Bytes) × (next_sync s ≡ some (id_of s.store a, bucket))
unfolding next_sync bucket_of
next_sync_lem s a after v e =
    let (h, _) = subst (Within (length s.store)) e v.queued in
    let (peer, here, r) = found s.store a v.ready h in
    let (bucket, there) = entry peer.buckets peer.next_bucket r in
    (bucket, now peer bucket here r there)
  where
    entry : (xs : List Bytes) (i : ℕ) → i < length xs → (x : Bytes) × (get_elem? xs i ≡ some x)
    entry [] i h = absurd (omega arith)
    entry (x ∷ xs) zero h = (x, refl)
    entry (x ∷ xs) (suc i) h = entry xs i (omega arith)

    now :
        (peer : Peer) (bucket : Bytes)
        → get_elem? s.store a ≡ some peer
        → IsReady peer
        → get_elem? peer.buckets peer.next_bucket ≡ some bucket
        → next_sync s ≡ some (id_of s.store a, bucket)
    now peer bucket here r there =
        let some_buckets : (length peer.buckets == 0) ≡ false = ground arith in
        rw (next_sync, e, here, bucket_of, some_buckets, there)
          (ap
            (λ (o : Option Peer).
              some (elim o as (λ _. Bytes) [ none ↦ [] | some peer ↦ peer.id ], bucket))
            (sym here))

-- The calls that the theorem is about: no peer is removed, and an added peer has buckets.
abbrev pub IsCalm : SchedulerCall → Type 0
IsCalm (call_add_peer id buckets) = 0 < length buckets
IsCalm (call_remove_peer id) = ⊥
IsCalm (call_schedule id) = Unit
IsCalm call_advance = Unit

abbrev pub AreCalm : List SchedulerCall → Type 0
AreCalm [] = Unit
AreCalm (c ∷ cs) = IsCalm c × AreCalm cs

abbrev pub advances : List SchedulerCall → ℕ
advances [] = 0
advances (call_advance ∷ cs) = advances cs + 1
advances (call_add_peer id buckets ∷ cs) = advances cs
advances (call_remove_peer id ∷ cs) = advances cs
advances (call_schedule id ∷ cs) = advances cs

append_middle :
    (before : List ℕ) (a : ℕ) (after more : List ℕ)
    → (before ++ (a ∷ after)) ++ more ≡ before ++ (a ∷ (after ++ more))
append_middle [] a after more = refl
append_middle (b ∷ before) a after more = ap (λ q. b ∷ q) (append_middle before a after more)

-- What the calls bring about for a pointer, and the same for one call more.
abbrev Turn : List SchedulerCall → PeriodicSyncScheduler → Bytes → Type 0
Turn cs s id =
    (s' : PeriodicSyncScheduler) × (calls cs s ≡ some s')
    × IsValid s'
    × ((bucket : Bytes) × (next_sync s' ≡ some (id, bucket)))

call-Turn :
    (c : SchedulerCall) (cs : List SchedulerCall) (s s₁ : PeriodicSyncScheduler) (id id₁ : Bytes)
    → call c s ≡ some s₁
    → id₁ ≡ id
    → Turn cs s₁ id₁
    → Turn (c ∷ cs) s id
call-Turn c cs s s₁ id id₁ e same (s', e', v, (bucket, now)) =
    (s', rw (calls, e) e', v, (bucket, now ∙ ap (λ i. some (i, bucket)) same))

-- In a valid scheduler a peer behind others in the queue is the next to synchronise after as many
-- calls of `Advance` as there are peers before it, whatever peers are added and scheduled meanwhile, if
-- none is removed and every added peer has buckets: none of the calls panics, the scheduler after them
-- is valid, and `Next` returns the id of the peer.
pub calls-next_sync :
    (cs : List SchedulerCall) (s : PeriodicSyncScheduler) (before : List ℕ) (a : ℕ) (after : List ℕ)
    → IsValid s
    → AreCalm cs
    → s.queue ≡ before ++ (a ∷ after)
    → advances cs ≡ length before
    → (s' : PeriodicSyncScheduler) × (calls cs s ≡ some s')
      × IsValid s'
      × ((bucket : Bytes) × (next_sync s' ≡ some (id_of s.store a, bucket)))
calls-next_sync [] s [] a after v calm e h = (s, refl, v, next_sync_lem s a after v e)
calls-next_sync [] s (b ∷ before) a after v calm e h = absurd (omega arith)
calls-next_sync (call_remove_peer id ∷ cs) s before a after v calm e h = absurd calm.0
calls-next_sync (call_add_peer id buckets ∷ cs) s before a after v (some_buckets, calm) e h =
    let (f, same_queue) = add_peer-Follows s id buckets v some_buckets in
    let inside = Within-middle _ before a after (subst (Within (length s.store)) e v.queued) in
    call-Turn (call_add_peer id buckets) cs s (add_peer s id buckets) _ _ refl (f.same_ids a inside)
      (calls-next_sync cs (add_peer s id buckets) before a after f.valid calm (same_queue ∙ e) h)
calls-next_sync (call_schedule id ∷ cs) s before a after v (_, calm) e h =
    let (f, (more, longer)) = schedule-Follows s id v in
    let inside = Within-middle _ before a after (subst (Within (length s.store)) e v.queued) in
    call-Turn (call_schedule id) cs s (schedule s id) _ _ refl (f.same_ids a inside) (
      calls-next_sync cs (schedule s id) before a (after ++ more) f.valid calm
        (longer ∙ ap (λ q. q ++ more) e ∙ append_middle before a after more) h)
calls-next_sync (call_advance ∷ cs) s [] a after v calm e h = absurd (omega arith)
calls-next_sync (call_advance ∷ cs) s (b ∷ before) a after v (_, calm) e h =
    let (s₁, e₁, f, rest) = advance-Follows s b (before ++ (a ∷ after)) v e in
    let inside =
      Within-middle _ (b ∷ before) a after (subst (Within (length s.store)) e v.queued) in
    call-Turn call_advance cs s s₁ _ _ e₁ (f.same_ids a inside)
      (calls-next_sync cs s₁ before a after f.valid calm rest (omega arith))
