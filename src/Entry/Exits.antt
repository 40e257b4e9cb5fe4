-- ===== src/Entry/Exits.antt =====
-- How the process of src/main.rs ends.
use nexus_relay.Prelude.{true, some, [], ◌≡◌, ◌↔◌, Occurs, arith, refl, Bool-cases, inl, inr, ◌⊎◌}
use nexus_relay.External.Packages.{Packages}
use nexus_relay.Entry.{success, World, exit_of, main, status, CommandLine, parsed, help, rejected}
use nexus_relay.Server.{Config}
use nexus_relay.Server.Serve.{
  Server, accept_error, accepting, returned, Main, serve, initial, listen_address, async_main,
}
use nexus_relay.Server.Serve.Ends.{serve_ends}

module _ (pk : Packages) where
  -- The process starts, and then an accept fails.
  pub record StopsServing (w : World pk) : Type 0 where
    pub config : Config
    pub configured : w.command_line ≡ parsed config
    pub built : w.builds ≡ true
    pub bound : w.bind (listen_address pk config) ≡ true
    pub refused : Occurs accept_error w.events

  exit_of_returned : (x : Server pk × Main) → x.1 ≡ returned → exit_of pk (some x) ≡ success x.0
  exit_of_returned (v, accepting) h = absurd (cc)
  exit_of_returned (v, returned) h = refl

  -- The command line asks for help, or the process starts and then an accept fails.
  abbrev pub EndsWell : World pk → Type 0
  EndsWell w = (w.command_line ≡ help) ⊎ StopsServing w

  exit_of-status :
      (x : Server pk × Main) → status pk (exit_of pk (some x)) ≡ some 0 → x.1 ≡ returned
  unfolding status
  exit_of-status (v, accepting) h = absurd (cc)
  exit_of-status (v, returned) h = refl

  CommandLine-cases :
      (c : CommandLine) → (c ≡ help) ⊎ ((c ≡ rejected) ⊎ ((config : Config) × (c ≡ parsed config)))
  CommandLine-cases help = inl refl
  CommandLine-cases rejected = inr (inl refl)
  CommandLine-cases (parsed config) = inr (inr (config, refl))

  main-EndsWell : (w : World pk) → status pk (main pk w).1 ≡ some 0 → EndsWell w
  unfolding main async_main status
  main-EndsWell w h = elim (CommandLine-cases w.command_line) [
    | inl e ↦ inl e
    | inr (inl e) ↦ absurd (ground (arith, e, h))
    | inr (inr (config, e)) ↦ elim (Bool-cases w.builds) [
      | inr b ↦ absurd (ground (arith, e, b, h))
      | inl b ↦ elim (Bool-cases (w.bind (listen_address pk config))) [
        | inr c ↦ absurd (ground (arith, e, b, c, h))
        | inl c ↦
            let served = serve pk config w.events (initial pk config w.connects w.channels) in
            let same : status pk (exit_of pk (some served)) ≡ some 0 = ground (arith, e, b, c, h) in
            inr (record {
              config = config;
              configured = e;
              built = b;
              bound = c;
              refused =
                  (serve_ends pk config w.events [] (initial pk config w.connects w.channels)).1.0
                    (exit_of-status served same);
            })
      ]
    ]
  ]

  -- The process exits with status 0 exactly if the command line asks for help, or it parses, the
  -- runtime builds, the address binds, and an accept fails.
  pub main-success_iff : (w : World pk) → (status pk (main pk w).1 ≡ some 0) ↔ EndsWell w
  unfolding main async_main status
  main-success_iff w = (
    main-EndsWell w,
    elim [
      | inl e ↦ ground (arith, e)
      | inr s ↦
          let start = initial pk s.config w.connects w.channels in
          let served = serve pk s.config w.events start in
          let ends : exit_of pk (some served) ≡ success served.0 =
            exit_of_returned served ((serve_ends pk s.config w.events [] start).1.1 s.refused) in
          ground (arith, s.configured, s.built, s.bound, ends)
    ],
  )
