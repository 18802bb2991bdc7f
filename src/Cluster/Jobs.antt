-- ===== src/Cluster/Jobs.antt =====
-- Where `PublishJob` of cluster/publish.go brings a job.
use own_x_go.Base.{
  ◌≡◌, refl, String, String_discrete, List, [], ◌∷◌, ◌++◌, some, true, false, arith, has, lookup,
  length, ◌≤◌, Option-cases, inl, inr, Bool-cases, All, length-append, ◌⊎◌, ap, ◌∙◌, sym,
  append_assoc, All-append,
}
use own_x_go.Cluster.Node.{Node}
use own_x_go.Cluster.State.{Cluster, Effect, sends_job, runs}
use own_x_go.Cluster.Messages.{alive_named, send_job, is_named, push_task, publish_one, publish_job}

-- The effect has the job `job` with the data `d` done at the node named `n`: the local node runs the
-- registered function, and any other is alive and connected.
abbrev pub Delivers : String → String → String → Cluster → Effect → Type 0
Delivers job n d c (sends_job i j e) =
    (j ≡ job)
    × (e ≡ d)
    × ((c.nodes i).name ≡ n)
    × (has String_discrete i c.nodes_alive ≡ true)
    × ((c.nodes i).connected ≡ true)
    × (is_named n c.node_my c.nodes ≡ false)
Delivers job n d c (runs f e) =
    (lookup String_discrete job c.task_registry ≡ some f)
    × (e ≡ d)
    × (is_named n c.node_my c.nodes ≡ true)
Delivers job n d c _ = ⊥

-- `d` is `c` with these effects, at most one.
abbrev AtMostOne : String → String → String → Cluster → Cluster → Type 0
AtMostOne job n d c e =
    (new : List Effect) × (e ≡ record c { trace = new ++ c.trace })
    × All (Delivers job n d c) new
    × (length new ≤ 1)

alive_named-is :
    (n i : String) (is : List String) (nodes : String → Node)
    → alive_named n is nodes ≡ some i
    → ((nodes i).name ≡ n) × (has String_discrete i is ≡ true)
unfolding alive_named has
alive_named-is n i [] nodes e = cc
alive_named-is n i (j ∷ is) nodes e = ground (arith, e, alive_named-is n i is nodes)

module _ (job n d : String) (c : Cluster) where
  nothing : AtMostOne job n d c c
  nothing = ([], refl, tt, omega arith)

  local : is_named n c.node_my c.nodes ≡ true → AtMostOne job n d c (push_task job d c)
  unfolding push_task
  local here = elim (Option-cases (lookup String_discrete job c.task_registry)) [
    | inl e ↦ rw (push_task, e) nothing
    | inr (f, e) ↦ rw (push_task, e) (runs f d ∷ [], refl, ((e, refl, here), tt), omega arith)
  ]

  remote :
      is_named n c.node_my c.nodes ≡ false
      → AtMostOne job n d c (send_job job d (alive_named n c.nodes_alive c.nodes) c)
  remote away = elim (Option-cases (alive_named n c.nodes_alive c.nodes)) [
    | inl e ↦ rw e nothing
    | inr (i, e) ↦
        let (same, alive) = alive_named-is n i c.nodes_alive c.nodes e in
        rw e (elim (Bool-cases (c.nodes i).connected) [
          | inl on ↦
              rw on (
                sends_job i job d ∷ [],
                refl,
                ((refl, refl, same, alive, on, away), tt),
                omega arith,
              )
          | inr off ↦ rw off nothing
        ])
  ]

  publish_one-AtMostOne : AtMostOne job n d c (publish_one job n d c)
  unfolding publish_one
  publish_one-AtMostOne = elim (Bool-cases (is_named n c.node_my c.nodes)) [
    | inl here ↦ rw (publish_one, here) (local here)
    | inr away ↦ rw (publish_one, away) (remote away)
  ]

abbrev Among : String × String → List (String × String) → Type 0
Among x [] = ⊥
Among x (y ∷ ys) = (x ≡ y) ⊎ Among x ys

All-map :
    {A : Type 0} (P Q : A → Type 0) (xs : List A) → ((x : A) → P x → Q x) → All P xs → All Q xs
All-map P Q [] f h = tt
All-map P Q (x ∷ xs) f h = (f x h.0, All-map P Q xs f h.1)

-- The effect delivers one of the entries.
abbrev pub DeliversOne : String → List (String × String) → Cluster → Effect → Type 0
DeliversOne job jobs c e = (n : String) × (d : String) × Among (n, d) jobs × Delivers job n d c e

-- `PublishJob` only delivers: each of its effects has the job done for one of the entries, at a node
-- of the entry's name, there are at most as many as entries, and nothing else changes.
pub publish_job-delivers :
    (job : String) (jobs : List (String × String)) (c : Cluster)
    → (new : List Effect) × (publish_job job jobs c ≡ record c { trace = new ++ c.trace })
      × All (DeliversOne job jobs c) new
      × (length new ≤ length jobs)
unfolding publish_job
publish_job-delivers job [] c = ([], refl, tt, omega arith)
publish_job-delivers job ((n, d) ∷ jobs) c =
    let (first, e, ok, one) = publish_one-AtMostOne job n d c in
    let (new, f, oks, few) =
      publish_job-delivers job jobs (record c { trace = first ++ c.trace }) in
    (
      new ++ first,
      ap (publish_job job jobs) e
          ∙ f
          ∙ ap (λ t. record c { trace = t }) (sym (append_assoc new first c.trace)),
      All-append (DeliversOne job ((n, d) ∷ jobs) c) new first
          (All-map (DeliversOne job jobs c) (DeliversOne job ((n, d) ∷ jobs) c) new
            (λ x h. (h.0, h.1, inr h.2, h.3)) oks)
          (All-map (Delivers job n d c) (DeliversOne job ((n, d) ∷ jobs) c) first
            (λ x h. (n, d, inl refl, h)) ok),
      omega (arith, one, few, length-append new first),
    )
