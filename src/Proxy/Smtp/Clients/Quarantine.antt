-- ===== src/Proxy/Smtp/Clients/Quarantine.antt =====
-- All the clients of the SMTP proxy of src/legacy_proxy.py and the quarantine of src/web_server.py.
use mx2_sandbox.Base.{
  ◌≡◌, ℕ, Str, Bool, Bool-cases, inl, inr, List, [], ◌∷◌, length, All, All-append, All-drop, ◌==◌,
  nat_eq,
}
use mx2_sandbox.Runtime.{Runtime, IsLawful}
use mx2_sandbox.Cas.{Store}
use mx2_sandbox.AntiSpam.Queue.Laws.{is_held}
use mx2_sandbox.Server.{Daemon, Call}
use mx2_sandbox.Proxy.Smtp.{Session}
use mx2_sandbox.Proxy.Smtp.Delivery.{post_all}
use mx2_sandbox.Proxy.Smtp.Delivery.Quarantine.{IsPayload, line-payloads, is_held-post_all}
use mx2_sandbox.Proxy.Smtp.Clients.{Clients, Round, listening, on_disk, run_round, run_rounds}

-- everything that was posted is a payload of the proxy
abbrev HasPayloads : Clients → Type 0
HasPayloads p = ((i : ℕ) → All IsPayload (p.client i).posted) × All IsPayload p.sent

module _ (R : Runtime) where
  run_round-HasPayloads : (r : Round) (p : Clients) → HasPayloads p → HasPayloads (run_round R r p)
  unfolding run_round
  run_round-HasPayloads (i, (fresh, line)) p (each, all) =
      let s : Session = on_disk p.shared (p.client i) in
      let made = line-payloads R fresh line s (each i) in
      (
        (λ j. elim (Bool-cases (j == i)) [ inl e ↦ rw e made | inr e ↦ rw e (each j) ]),
        All-append IsPayload p.sent _ all (All-drop IsPayload (length (p.client i).posted) _ made),
      )

  run_rounds-HasPayloads :
      (rounds : List Round) (p : Clients) → HasPayloads p → HasPayloads (run_rounds R rounds p)
  unfolding run_rounds
  run_rounds-HasPayloads [] p h = h
  run_rounds-HasPayloads (r ∷ rounds) p h =
      run_rounds-HasPayloads rounds (run_round R r p) (run_round-HasPayloads r p h)

  -- Over a lawful runtime: whatever the clients of one proxy send, and in whatever order their rounds
  -- come, the payloads that reach the daemon leave the set of the messages in quarantine as it was,
  -- since the proxy does not send whether a signature is valid.
  pub is_held-run_rounds :
      IsLawful R
      → (calls : List (Call × Bool)) (rounds : List Round) (store : Store) (j : Str) (d : Daemon)
      → is_held j (post_all R calls (run_rounds R rounds (listening store)).sent d).anti_spam
        ≡ is_held j d.anti_spam
  is_held-run_rounds L calls rounds store j d =
      is_held-post_all R L calls j _ d
        (run_rounds-HasPayloads rounds (listening store) ((λ i. tt), tt)).1
