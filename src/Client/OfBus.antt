-- ===== src/Client/OfBus.antt =====
-- The typed transfers over a bus meet the interface of the profiles.
use socanmatic.Base.{ℕ, ◌≡◌, false, Option, none, arith}
use socanmatic.Bus.{Bus, is_ok}
use socanmatic.Run.{returned, >>=-eq-returned}
use socanmatic.Scalar.Member.{Member, write}
use socanmatic.Sdo.Query.{sdo_ul, sdo_dl}
use socanmatic.Sdo.Typed.{
  Uploaded, Downloaded, request, take_upload, take_download, sdo_ul_member, sdo_dl_member,
}
use socanmatic.Client.Defs.{Client}

module _ (bus : Bus) (fuel : ℕ) where
  open bus use {State}

  -- A typed upload that does not return OK leaves the caller's value as it was.
  pub sdo_ul_member-val_kept :
      (m : Member) (s : State) (node idx subix val : ℕ) (err : Option ℕ) (u : Uploaded State)
      → sdo_ul_member bus fuel m s node idx subix val err ≡ returned u
      → is_ok u.status ≡ false
      → u.val ≡ val
  unfolding sdo_ul_member take_upload
  sdo_ul_member-val_kept m s node idx subix val err u h bad =
      let (out, e, d) =
        >>=-eq-returned (sdo_ul bus fuel s (request m node idx subix) (bus.stack_msg s))
          (λ out. returned (take_upload bus fuel m val err out)) h in
      ground (arith, d, bad)

  pub sdo_dl_member-null_kept :
      (m : Member) (s : State) (node idx subix val : ℕ) (d : Downloaded State)
      → sdo_dl_member bus fuel m s node idx subix val none ≡ returned d
      → d.err ≡ none
  unfolding sdo_dl_member take_download
  sdo_dl_member-null_kept m s node idx subix val d h =
      let req = request m node idx subix in
      let (out, e, r) =
        >>=-eq-returned
          (sdo_dl bus fuel s (record req { scalar = write m req.scalar val }) (bus.stack_msg s))
          (λ out. returned (take_download bus fuel none out)) h in
      ground (arith, r)

  abbrev pub client_of : Client
  client_of = record {
    State = State;
    upload = sdo_ul_member bus fuel;
    download = sdo_dl_member bus fuel;
    send = bus.send;
    val_kept = sdo_ul_member-val_kept;
    null_kept = sdo_dl_member-null_kept;
  }
