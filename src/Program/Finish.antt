-- ===== src/Program/Finish.antt =====
-- src/main.cpp: behind a loop that throws nothing, `main` ends well.
use asnprefix_map.Base.{
  ◌+◌, ◌^◌, ◌<◌, ◌≡◌, ◌∙◌, ap, inl, inr, true, false, [], ◌∷◌, ◌++◌, Option, some, nat_eq,
  Bool-cases, length, Bytes, Error, ok, err,
}
use asnprefix_map.Base.Text.{codes}
use asnprefix_map.Prefix.{BinaryPrefix}
use asnprefix_map.Prefix.Inet.{Inet, IsInet}
use asnprefix_map.Prefix.Cidr.{prefix_to_string}
use asnprefix_map.Prefix.RoundTrip.{IsCanonical, parse_prefix-prefix_to_string}
use asnprefix_map.Peer.{PeerRegistry}
use asnprefix_map.Routing.State.{RoutingState}
use asnprefix_map.Routing.State.Agreement.{exported-observed}
use asnprefix_map.Routing.State.Families.{exported}
use asnprefix_map.Routing.Export.{export_tables}
use asnprefix_map.Routing.Export.Totality.{export_tables-some}
use asnprefix_map.Parser.{JsonLibrary}
use asnprefix_map.Snapshot.{save_snapshot}
use asnprefix_map.Snapshot.Saving.{save_snapshot-ok, save_snapshot-err}
use asnprefix_map.Config.{Config, load_config}
use asnprefix_map.Stats.{Floats}
use asnprefix_map.Ingest.{Ingest, ingest_loop}
use asnprefix_map.Ingest.Settled.{IsSettled}
use asnprefix_map.Ingest.Ready.{ingest_loop-IsSettled}
use asnprefix_map.Program.{
  BgpSource, Printing, World, Outcome, doubles, loop_settings, create_source, source_turns,
  load_initial, open_stats, csv_text, summary, start_ingest, final_sample, finish, run_main, main,
}

-- The program's two texts of a prefix are the same call.
text_of :
    (i : Inet)
    → IsInet i
    → (k : BinaryPrefix) → IsCanonical k
    → (text : Bytes) × (prefix_to_string i k ≡ some text)
text_of i laws k c =
    let (text, printed, _) = parse_prefix-prefix_to_string i laws k c in (text, printed)

module _ (fl : Floats) (printing : Printing fl) (i : Inet) where
  -- The outcome has the snapshot and the tables of a registry and a state that are settled.
  abbrev pub IsSaved : Config (doubles fl printing) → Outcome fl → Type 0
  IsSaved cfg o =
      IsSettled o.ingest.peer_registry o.ingest.state
      × (save_snapshot i cfg.snapshot_output true o.ingest.peer_registry o.ingest.state
          ≡ ok o.snapshot)
      × (export_tables i o.ingest.state ≡ some o.tables)

module _ (fl : Floats) (printing : Printing fl) (i : Inet) (laws : IsInet i) where
  final_sample-IsSettled :
      (cfg : Config (doubles fl printing)) (w : World fl) (g : Ingest fl)
      → IsSettled g.peer_registry g.state
      → let e = final_sample fl printing cfg w g in IsSettled e.peer_registry e.state
  unfolding final_sample
  final_sample-IsSettled cfg w g v = elim (Bool-cases cfg.stats_output_enabled) [
    | inl on ↦ rw (final_sample, on) v
    | inr off ↦ rw (final_sample, off) v
  ]

  -- Only a snapshot that cannot be opened ends the run behind the loop.
  finish-ok :
      (cfg : Config (doubles fl printing)) (w : World fl) (csv : Option Bytes) (g : Ingest fl)
      → IsSettled g.peer_registry g.state
      → w.snapshot_opens ≡ true
      → (o : Outcome fl) × (finish fl printing i cfg w csv g ≡ ok o) × IsSaved fl printing i cfg o
  unfolding finish
  finish-ok cfg w csv g u opens =
      let e = final_sample fl printing cfg w g in
      let v = final_sample-IsSettled cfg w g u in
      let (saved, written) =
        save_snapshot-ok i cfg.snapshot_output e.peer_registry e.state v.sound v.known
          (λ k q x h. text_of i laws k (v.canonical k q x h)) in
      let (tables, exported) = export_tables-some i e.state v.sound (λ k a h.
        let (q, x, entry) = exported-observed e.state k a v.sound h in
        text_of i laws k (v.canonical k q x entry)) in
      let opened =
        ap (λ b. save_snapshot i cfg.snapshot_output b e.peer_registry e.state) opens ∙ written in
      (
        record {
          ingest = e;
          csv = csv_text fl printing csv e;
          snapshot = saved;
          tables = tables;
          console = summary fl printing w e ++ codes "Done" ++ 10 ∷ [];
        },
        rw (opened, exported),
        (v, written, exported),
      )

  finish-err :
      (cfg : Config (doubles fl printing)) (w : World fl) (csv : Option Bytes) (g : Ingest fl)
      → w.snapshot_opens ≡ false
      → (e : Error) × (finish fl printing i cfg w csv g ≡ err e)
  unfolding finish
  finish-err cfg w csv g shut =
      let end = final_sample fl printing cfg w g in
      let (e, refused) = save_snapshot-err i cfg.snapshot_output end.peer_registry end.state in
      let thrown =
        ap (λ b. save_snapshot i cfg.snapshot_output b end.peer_registry end.state) shut
        ∙ refused in
      (e, rw thrown)

  -- With an `inet_pton` and an `inet_ntop` that keep the laws of `IsInet`: where the configuration is
  -- read, the registry and the state before the loop are settled (two inverse maps, a sound state, and
  -- each entry of a known peer and a prefix in normal form), the file of the samples opens if there is
  -- one and the source is created, and the loop throws nothing, over fewer turns than there are ids of
  -- 32 bits left: if the snapshot's file can be opened, `main` returns 0, and it leaves a settled registry
  -- and a settled state behind, with the snapshot and the tables of the two; if it cannot, `main`
  -- returns 1.
  pub main_lem :
      (j : JsonLibrary) (w : World fl) (cfg : Config (doubles fl printing)) (r : PeerRegistry)
      (s : RoutingState) (csv : Option Bytes) (source : BgpSource) (g : Ingest fl)
      → load_config (doubles fl printing) (codes "config.ini") w.config_file ≡ ok cfg
      → load_initial fl printing i cfg w ≡ ok (r, s)
      → IsSettled r s
      → open_stats fl printing cfg w ≡ ok csv
      → create_source fl printing cfg w.input_file ≡ ok source
      → r.next_peer_id + length (source_turns fl printing w source) + 1 < 2 ^ 32
      → ingest_loop fl i j
          (loop_settings fl printing cfg)
          (source_turns fl printing w source)
          (start_ingest fl printing cfg w r s)
        ≡ ok g
      → (w.snapshot_opens ≡ true
          → (main fl printing i j w ≡ 0)
            × ((o : Outcome fl) × (run_main fl printing i j w ≡ ok o)
                × IsSaved fl printing i cfg o))
        × (w.snapshot_opens ≡ false → main fl printing i j w ≡ 1)
  unfolding main run_main start_ingest
  main_lem j w cfg r s csv source g config loaded v opened created small looped =
      let (settled, _) =
        ingest_loop-IsSettled fl i laws j (loop_settings fl printing cfg)
          (source_turns fl printing w source) (start_ingest fl printing cfg w r s) g v small
          looped in
      let body : run_main fl printing i j w ≡ finish fl printing i cfg w csv g =
        rw (run_main, config, loaded, opened, created, looped) in
      (
        λ opens.
            let (o, done, after) = finish-ok cfg w csv g settled opens in
            (rw (main, body, done), (o, body ∙ done, after)),
        λ shut. let (e, thrown) = finish-err cfg w csv g shut in rw (main, body, thrown),
      )
