-- ===== src/Pipeline/Driver/Invariant.antt =====
-- The invariant of the stages of `Pipeline.Driver`: permits, running workers and closed channels.
use tmc_examples.Base.{
  total, total-at, ℕ, ◌+◌, ◌*◌, ◌≡◌, ◌⊎◌, inl, inr, sym, ap, ◌∙◌, subst, true, Option, some, List,
  [], ◌∷◌, ◌++◌, length, arith,
}
use tmc_examples.Pipeline.Channels.{Channel, Semaphore}
use tmc_examples.Pipeline.{Pc, Shared, still_running}
use tmc_examples.Pipeline.Moves as Worker
use tmc_examples.Pipeline.Moves.{Level, to_post}
use tmc_examples.Pipeline.EndStage as End
use tmc_examples.Pipeline.EndStage.Moves as Consumer
use tmc_examples.Pipeline.Driver.{Link, Node, EndNode, Config, Stages, out_link, shared, end_shared}

module _ (chan : Channel) (sems : Semaphore) (A : Type 0) where
  abbrev pub Drained : Link chan sems A → Type 0
  Drained q = (chan.items q.queue ≡ []) × (chan.closed q.queue ≡ true)

  -- Of a stage behind the link `q`, before which `taken` permits are in use.
  pub record NodeInv (n taken : ℕ) (q : Link chan sems A) (node : Node chan sems A) : Type 0 where
    pub input :
        Level sems q.sem
          (length (chan.items q.queue) + total Worker.to_release node.workers + taken)
          (2 * n)
    pub running : (total still_running node.workers ≡ n) ⊎ Drained q
    pub ended : chan.closed node.out_chan ≡ true → total still_running node.workers ≡ 0

  pub record EndInv (n taken : ℕ) (q : Link chan sems A) (e : EndNode chan sems A) : Type 0 where
    pub input :
        Level sems q.sem
          (length (chan.items q.queue)
            + total (Consumer.to_release chan sems A) e.consumers
            + taken)
          (2 * n)
    pub running : (total End.still_running e.consumers ≡ n) ⊎ Drained q

  module _ (end_count : ℕ) where
    abbrev pub Inv :
        (cs : List (Config chan sems A)) → ℕ → Link chan sems A → Stages chan sems A cs → Type 0
    Inv [] taken q e = EndInv end_count taken q e
    Inv ((f, n) ∷ more) taken q (node, rest) =
        NodeInv n taken q node
        × Inv more (total to_post node.workers) (out_link chan sems A node) rest

    pub along_eq :
        (m : Option sems.State) {u v : ℕ} (c : ℕ) → u ≡ v → Level sems m u c → Level sems m v c
    along_eq m c e h = subst (λ w. Level sems m w c) e h

    pub work-NodeInv :
        {n taken : ℕ} {f : A → A} (q : Link chan sems A) (node : Node chan sems A)
        (before after : List (Pc A)) (pc pc' : Pc A) (t : Shared chan sems f)
        → node.workers ≡ before ++ pc ∷ after
        → Worker.Kept chan sems f pc (shared chan sems A f q node) (t, pc')
        → NodeInv n taken q node
        → NodeInv n taken
            (record { queue = t.in_chan; sem = t.in_sem })
            (record { out_chan = t.out_chan; out_sem = t.out_sem; workers = before ++ pc' ∷ after })
    work-NodeInv {n} {taken} q node before after pc pc' t e k v = record {
      input =
          along_eq t.in_sem (2 * n) (omega (arith, total-at Worker.to_release before pc' after)) (
            k.input (total Worker.to_release before + total Worker.to_release after + taken) (2 * n)
              (along_eq q.sem (2 * n) (omega (arith, split Worker.to_release)) v.input));
      running = elim v.running [
        | inl r ↦ elim k.ends [
          | inl s ↦
              inl
                (omega (arith, r, s, split still_running, total-at still_running before pc' after))
          | inr d ↦ inr d
        ]
        | inr d ↦ inr (k.stays d)
      ];
      ended = λ z. omega (
        arith,
        v.ended (sym k.shut ∙ z),
        k.falls,
        split still_running,
        total-at still_running before pc' after,
      );
    }
      where
        split : (w : Pc A → ℕ) → total w node.workers ≡ total w before + w pc + total w after
        split w = ap (total w) e ∙ total-at w before pc after

    pub consume-EndInv :
        {n taken : ℕ} (q : Link chan sems A) (node : EndNode chan sems A) (m : sems.State)
        (before after : List (End.Pc A)) (pc pc' : End.Pc A) (t : End.Shared chan sems A)
        → q.sem ≡ some m
        → node.consumers ≡ before ++ pc ∷ after
        → Consumer.Kept chan sems A pc (end_shared chan sems A q.queue m node) (t, pc')
        → EndInv n taken q node
        → EndInv n taken
            (record { queue = t.in_chan; sem = some t.in_sem })
            (record { consumers = before ++ pc' ∷ after; consumed = t.consumed })
    consume-EndInv {n} {taken} q node m before after pc pc' t g e k v = record {
      input = omega (
        arith,
        level,
        k.places,
        split (Consumer.to_release chan sems A),
        total-at (Consumer.to_release chan sems A) before pc' after,
      );
      running = elim v.running [
        | inl r ↦ elim k.ends [
          | inl s ↦ inl (
              omega
                (arith, r, s, split End.still_running, total-at End.still_running before pc' after))
          | inr d ↦ inr d
        ]
        | inr d ↦ inr (k.stays d)
      ];
    }
      where
        split : (w : End.Pc A → ℕ) → total w node.consumers ≡ total w before + w pc + total w after
        split w = ap (total w) e ∙ total-at w before pc after

        level :
            sems.count m
              + (length (chan.items q.queue)
                  + total (Consumer.to_release chan sems A) node.consumers
                  + taken)
            ≡ 2 * n
        level =
            subst
              (λ o.
                Level sems o
                  (length (chan.items q.queue)
                    + total (Consumer.to_release chan sems A) node.consumers
                    + taken)
                  (2 * n))
              g v.input
