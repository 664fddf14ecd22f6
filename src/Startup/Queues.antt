-- ===== src/Startup/Queues.antt =====
-- The queues that InitVirtIOSCSI of src/virtio/virtio_init.c sets up, and what frees them.
use mathlib.Core.List.{append_assoc}
use virtual_scsidevice.Base.{
  ℕ, zero, suc, ◌+◌, ◌≡◌, refl, sym, ap, ◌∙◌, ◌==◌, ltb, false, not, if◌then◌else◌, if_ind, List,
  [], ◌∷◌, ◌++◌, arith,
}
use virtual_scsidevice.Startup.{
  acquire, release, QueueAnswer, QueueSetup, QueuesSet, queue_memory, queue_mapping, virtqueue_free,
  queues_failed, setup_queues, cleanup_queues, InitAnswers, negotiate, queue_setup,
  init_virtio_scsi,
}
use virtual_scsidevice.Startup.Events.{acquired, released, acquired-append, released-append}

cleanup_queues-append :
    (vqs ws : List QueueSetup)
    → cleanup_queues (vqs ++ ws) ≡ cleanup_queues vqs ++ cleanup_queues ws
unfolding cleanup_queues
cleanup_queues-append [] ws = refl
cleanup_queues-append (vq ∷ vqs) ws =
    ap (λ l. virtqueue_free vq.index vq.dma_entries ++ l) (cleanup_queues-append vqs ws)
    ∙ sym (
        append_assoc (virtqueue_free vq.index vq.dma_entries) (cleanup_queues vqs)
          (cleanup_queues ws))

-- The setup of the queues takes what the cleanup of the queues that it leaves gives back, beyond those
-- that were there.
abbrev pub SetUp : List QueueSetup → QueuesSet → Type 0
SetUp vqs r =
    (p : ℕ)
    → acquired p r.events + released p (cleanup_queues vqs)
      ≡ released p r.events + released p (cleanup_queues r.vqs)

freed :
    (p q entries : ℕ) (vq : QueueSetup)
    → (entries == 0) ≡ false
    → vq.index ≡ q
    → vq.dma_entries ≡ entries
    → released p (cleanup_queues (vq ∷ []))
      ≡ (if queue_mapping q == p then 1 else 0) + (if queue_memory q == p then 1 else 0)
unfolding cleanup_queues virtqueue_free
freed p q entries vq some_entries named mapped = rw (named, mapped) (ground (arith, some_entries))

setup_queues-SetUp :
    (answers : ℕ → QueueAnswer) (make : ℕ → QueueAnswer → QueueSetup) (q left : ℕ)
    (vqs : List QueueSetup)
    → ((k : ℕ) (a : QueueAnswer) → (make k a).index ≡ k)
    → ((k : ℕ) (a : QueueAnswer) → (make k a).dma_entries ≡ a.entries)
    → SetUp vqs (setup_queues answers make q left vqs)
unfolding setup_queues virtqueue_free
setup_queues-SetUp answers make q zero vqs named mapped = λ p. omega arith
setup_queues-SetUp answers make q (suc left) vqs named mapped =
    let a = answers q in
    let skipped = setup_queues answers make (q + 1) left vqs in
    let next = setup_queues answers make (q + 1) left (vqs ++ (make q a ∷ [])) in
    let S = SetUp vqs in
    if_ind S (a.q_max == 0) skipped _
      (λ _. setup_queues-SetUp answers make (q + 1) left vqs named mapped)
      (λ _.
        if_ind S (not a.allocated) (queues_failed vqs []) _ (λ _ p. omega arith)
          (λ _.
            if_ind S (a.entries == 0)
              (queues_failed vqs (acquire (queue_memory q) ∷ virtqueue_free q 0)) _
              (λ _ p. omega arith)
              (λ e.
                if_ind S (not a.list_ok)
                  (queues_failed vqs (
                    acquire (queue_memory q)
                    ∷ acquire (queue_mapping q)
                    ∷ release (queue_mapping q)
                    ∷ virtqueue_free q 0))
                  _ (λ _ p. omega arith)
                  (λ _ p. omega (
                    arith,
                    setup_queues-SetUp answers make (q + 1) left (vqs ++ (make q a ∷ [])) named
                        mapped p,
                    freed p q a.entries (make q a) e (named q a) (mapped q a),
                    ap (released p) (cleanup_queues-append vqs (make q a ∷ [])),
                    released-append p (cleanup_queues vqs) (cleanup_queues (make q a ∷ [])),
                  )))))

pub acquired-cleanup_queues : (p : ℕ) (vqs : List QueueSetup) → acquired p (cleanup_queues vqs) ≡ 0
unfolding cleanup_queues virtqueue_free
acquired-cleanup_queues p [] = refl
acquired-cleanup_queues p (vq ∷ vqs) =
    let free = virtqueue_free vq.index vq.dma_entries in
    let rest = acquired-cleanup_queues p vqs in
    let none : acquired p free ≡ 0 =
      if_ind (λ es. acquired p es ≡ 0) (ltb 0 vq.dma_entries)
        (release (queue_mapping vq.index) ∷ release (queue_memory vq.index) ∷ [])
        (release (queue_memory vq.index) ∷ []) (λ _. refl) (λ _. refl) in
    omega (arith, rest, none, acquired-append p free (cleanup_queues vqs))

pub init_virtio_scsi-SetUp : (a : InitAnswers) → SetUp [] (init_virtio_scsi a)
unfolding init_virtio_scsi queue_setup cleanup_queues
init_virtio_scsi-SetUp a =
    let f = negotiate a.modern_mode a.offered_lo a.offered_hi in
    let make = queue_setup f a.notify_cfg_base a.notify_off_mult in
    if_ind (SetUp []) (not (if a.modern_mode then a.features_ok else a.has_bar0))
      (queues_failed [] []) (setup_queues a.queues make 0 3 []) (λ _ p. refl)
      (λ _. setup_queues-SetUp a.queues make 0 3 [] (λ k b. refl) (λ k b. refl))
