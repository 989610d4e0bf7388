-- ===== src/Commands/Restart.antt =====
-- A process of src/commands/Start.ts that is started again.
use rif_relay_server.Base.{
  Bool, ◌≡◌, refl, sym, ap, subst, ◌∙◌, true, false, none, some, codes, ◌++◌, if◌then◌else◌, arith,
}
use rif_relay_server.Outcome.{
  Outcome, ok, err, Error, pure, throw, missing_node_url, ok_injective, >>=-eq-ok,
}
use rif_relay_server.Keys.{Keys}
use rif_relay_server.Keys.Keystore.{Disk, create_key_manager}
use rif_relay_server.Keys.Restart.{create_key_manager-restart}
use rif_relay_server.Server.{Server}
use rif_relay_server.Server.Worker.{init}
use rif_relay_server.Http.Lifecycle as Lifecycle
use rif_relay_server.Http.Lifecycle.{Lifecycle}
use rif_relay_server.Commands.Start.{
  Machine, Launch, Running, remove_store, manager_keys, workers_keys, on_manager_disk,
  on_workers_disk, open_txstore, create, context, saved, init_server, run, no_text, idle,
}

keys_again :
    {a b : Keys} {d d' : Disk}
    → ◌≡◌ {A = Outcome Keys × Disk} (ok a, d) (ok b, d')
    → (b ≡ a) × (d' ≡ d)
keys_again e = (sym (ok_injective e), sym (ap (λ q. q.1) e))

module _ {Store : Type 0} where
  -- What a started process has done: it made its keys over the directories, opened the store, which
  -- it has removed before in the mode of development, and left all three.
  pub record IsStarted (l : Launch Store) (m : Machine Store) (r : Running Store)
      (m' : Machine Store) : Type 0 where
    pub manager_made :
        create_key_manager l.from_seed l.manager_files l.manager_seed 1
          (some (l.workdir ++ codes "/manager"))
          none
          m.manager_disk
        ≡ (ok r.manager, m'.manager_disk)
    pub workers_made :
        create_key_manager l.from_seed l.workers_files l.workers_seed 1
          (some (l.workdir ++ codes "/workers"))
          none
          m.workers_disk
        ≡ (ok r.workers, m'.workers_disk)
    pub opened : r.opened ≡ l.open_store (if l.dev_mode then none else m.txstore)
    pub initialized :
        init (context l r.manager r.workers) (create l r.manager r.workers r.opened)
        ≡ (ok tt, r.server)
    pub left : m'.txstore ≡ some r.server.registration.world.store

  remove_store-eq-ok :
      (l : Launch Store) (m m' : Machine Store) (u : Unit {0})
      → remove_store l m ≡ (ok u, m')
      → (m'.manager_disk ≡ m.manager_disk)
        × (m'.workers_disk ≡ m.workers_disk)
        × (m'.txstore ≡ (if l.dev_mode then none else m.txstore))
  remove_store-eq-ok l m m' u e = ground arith

  on_manager_disk-eq-ok :
      (l : Launch Store) (p : Outcome Keys × Disk) (m m' : Machine Store) (ks : Keys)
      → on_manager_disk l p m ≡ (ok ks, m')
      → (p ≡ (ok ks, m'.manager_disk)) × (m' ≡ record m { manager_disk = m'.manager_disk })
  on_manager_disk-eq-ok l (r, d) m m' ks e =
      let left : record m { manager_disk = d } ≡ m' = ap (λ q. q.1) e in
      (
        λ i. ((e i).0, (e i).1.manager_disk),
        subst (λ x. x ≡ record m { manager_disk = x.manager_disk }) left refl,
      )

  on_workers_disk-eq-ok :
      (l : Launch Store) (p : Outcome Keys × Disk) (m m' : Machine Store) (ks : Keys)
      → on_workers_disk l p m ≡ (ok ks, m')
      → (p ≡ (ok ks, m'.workers_disk)) × (m' ≡ record m { workers_disk = m'.workers_disk })
  on_workers_disk-eq-ok l (r, d) m m' ks e =
      let left : record m { workers_disk = d } ≡ m' = ap (λ q. q.1) e in
      (
        λ i. ((e i).0, (e i).1.workers_disk),
        subst (λ x. x ≡ record m { workers_disk = x.workers_disk }) left refl,
      )

  saved-eq-ok :
      (l : Launch Store) (p : Outcome (Unit {0}) × Server Store) (m m' : Machine Store)
      (s : Server Store)
      → saved l p m ≡ (ok s, m')
      → (p ≡ (ok tt, s)) × (m' ≡ record m { txstore = some s.registration.world.store })
  saved-eq-ok l (ok u, t) m m' s e =
      let same : t ≡ s = cc in
      let left : record m { txstore = some t.registration.world.store } ≡ m' = ap (λ q. q.1) e in
      (
        ap (λ x. (ok tt, x)) same,
        sym left ∙ ap (λ x. record m { txstore = some x.registration.world.store }) same,
      )
  saved-eq-ok l (err x, t) m m' s e = cc

  test-eq-ok :
      (b : Bool) (e : Error) (m m' : Machine Store) (u : Unit {0})
      → (if b then throw e else pure tt) m ≡ (ok u, m')
      → m' ≡ m
  test-eq-ok true e m m' u h = cc
  test-eq-ok false e m m' u h = sym (ap (λ q. q.1) h)

  finished :
      (l : Launch Store) (m m5 m' : Machine Store) (r r' : Running Store)
      → IsStarted l m r m5
      → ◌≡◌ {A = Outcome (Running Store) × Machine Store} (ok r, m5) (ok r', m')
      → IsStarted l m r' m'
  finished l m m5 m' r r' h e =
      subst (λ x. IsStarted l m x m') (ok_injective e)
        (subst (λ x. IsStarted l m r x) (ap (λ q. q.1) e) h)

  -- The steps of `run`, as equations between the states that they leave.
  assembled :
      (l : Launch Store) (m m1 m2 m3 m4 m5 : Machine Store) (manager workers : Keys)
      (opened : Store) (server : Server Store) (http : Lifecycle) (m' : Machine Store)
      (r : Running Store)
      → (m1.manager_disk ≡ m.manager_disk)
        × (m1.workers_disk ≡ m.workers_disk)
        × (m1.txstore ≡ (if l.dev_mode then none else m.txstore))
      → manager_keys l m1 ≡ (ok manager, m2)
      → workers_keys l m2 ≡ (ok workers, m3)
      → open_txstore l m3 ≡ (ok opened, m4)
      → init_server l manager workers opened m4 ≡ (ok server, m5)
      → ◌≡◌ {A = Outcome (Running Store) × Machine Store}
          (
            ok (record {
              manager = manager;
              workers = workers;
              opened = opened;
              server = server;
              http = http;
            }),
            m5,
          )
          (ok r, m')
      → IsStarted l m r m'
  assembled l m m1 m2 m3 m4 m5 manager workers opened server http m' r (a, b, c) made made_too
        loaded started e =
      let (manager_made, left2) = on_manager_disk-eq-ok l _ m1 m2 manager made in
      let (workers_made, left3) = on_workers_disk-eq-ok l _ m2 m3 workers made_too in
      let (initialized, left5) = saved-eq-ok l _ m4 m5 server started in
      let left4 : m4 ≡ record m3 { txstore = some (l.open_store m3.txstore) } =
        sym (ap (λ q. q.1) loaded) in
      let was_opened : opened ≡ l.open_store m3.txstore = sym (ok_injective loaded) in
      let manager_kept : m5.manager_disk ≡ m2.manager_disk =
        ap (λ x. x.manager_disk) left5
        ∙ ap (λ x. x.manager_disk) left4
        ∙ ap (λ x. x.manager_disk) left3 in
      let workers_kept : m5.workers_disk ≡ m3.workers_disk =
        ap (λ x. x.workers_disk) left5 ∙ ap (λ x. x.workers_disk) left4 in
      let file : m3.txstore ≡ (if l.dev_mode then none else m.txstore) =
        ap (λ x. x.txstore) left3 ∙ ap (λ x. x.txstore) left2 ∙ c in
      let before : m2.workers_disk ≡ m.workers_disk = ap (λ x. x.workers_disk) left2 ∙ b in
      finished l m m5 m' _ r
        (record {
          manager_made =
              subst
                (λ d.
                  create_key_manager l.from_seed l.manager_files l.manager_seed 1
                    (some (l.workdir ++ codes "/manager")) none d
                  ≡ (ok manager, m5.manager_disk))
                a (manager_made ∙ ap (λ d. (ok manager, d)) (sym manager_kept));
          workers_made =
              subst
                (λ d.
                  create_key_manager l.from_seed l.workers_files l.workers_seed 1
                    (some (l.workdir ++ codes "/workers")) none d
                  ≡ (ok workers, m5.workers_disk))
                before (workers_made ∙ ap (λ d. (ok workers, d)) (sym workers_kept));
          opened = was_opened ∙ ap l.open_store file;
          initialized = initialized;
          left = ap (λ x. x.txstore) left5;
        })
        e

  run-IsStarted :
      (l : Launch Store) (m m' : Machine Store) (r : Running Store)
      → run l m ≡ (ok r, m')
      → IsStarted l m r m'
  unfolding run
  run-IsStarted l m m' r e =
      let (u0, m0, tested, e0) = >>=-eq-ok _ _ m e in
      let (u1, m1, removed, e1) = >>=-eq-ok _ _ m0 e0 in
      let (manager, m2, made, e2) = >>=-eq-ok _ _ m1 e1 in
      let (workers, m3, made_too, e3) = >>=-eq-ok _ _ m2 e2 in
      let (opened, m4, loaded, e4) = >>=-eq-ok _ _ m3 e3 in
      let (server, m5, started, e5) = >>=-eq-ok _ _ m4 e4 in
      let same = test-eq-ok (no_text l.rsk_node_url) missing_node_url m m0 u0 tested in
      let kept =
        remove_store-eq-ok l m m1 u1 (subst (λ x. remove_store l x ≡ (ok u1, m1)) same removed) in
      assembled l m m1 m2 m3 m4 m5 manager workers opened server (Lifecycle.start idle) m' r kept
        made made_too loaded started e5

  -- A process that is started where another was, in the same directory and with keystores that it
  -- can read, has the same keys of the manager and of the workers, and leaves the keystores as they
  -- were. Its store is opened on what the other left when it had started, and on nothing in the mode
  -- of development.
  pub run_restart :
      (l l' : Launch Store) (m m' m'' : Machine Store) (r r' : Running Store)
      → l.from_seed ≡ l'.from_seed
      → l.workdir ≡ l'.workdir
      → l'.manager_files.read_error ≡ none
      → l'.workers_files.read_error ≡ none
      → run l m ≡ (ok r, m')
      → run l' m' ≡ (ok r', m'')
      → (r'.manager ≡ r.manager)
        × (r'.workers ≡ r.workers)
        × (m''.manager_disk ≡ m'.manager_disk)
        × (m''.workers_disk ≡ m'.workers_disk)
        × (r'.opened
            ≡ l'.open_store (if l'.dev_mode then none else some r.server.registration.world.store))
  run_restart l l' m m' m'' r r' seeds dirs readable readable_too first second =
      let one = run-IsStarted l m m' r first in
      let two = run-IsStarted l' m' m'' r' second in
      let manager_again =
        create_key_manager-restart l.from_seed l.manager_files l'.manager_files l.manager_seed
          l'.manager_seed 1 (l.workdir ++ codes "/manager") m.manager_disk m'.manager_disk r.manager
          (omega arith) readable one.manager_made in
      let workers_again =
        create_key_manager-restart l.from_seed l.workers_files l'.workers_files l.workers_seed
          l'.workers_seed 1 (l.workdir ++ codes "/workers") m.workers_disk m'.workers_disk r.workers
          (omega arith) readable_too one.workers_made in
      let (same_manager, kept_manager) =
        keys_again (sym (rw (seeds, dirs) at manager_again) ∙ two.manager_made) in
      let (same_workers, kept_workers) =
        keys_again (sym (rw (seeds, dirs) at workers_again) ∙ two.workers_made) in
      (
        same_manager,
        same_workers,
        kept_manager,
        kept_workers,
        two.opened ∙ ap (λ f. l'.open_store (if l'.dev_mode then none else f)) one.left,
      )
