-- ===== src/Rpc/Protocols.antt =====
-- The protocol objects of SinbohaRPCClient, and in the same words of SinbohaRPCConcurrentClient
-- (Sinboha/gen-cpp/SinbohaRPC.h). An object is known by its identity, in a type `T`.
use sinboha.Prelude.{◌≡◌, refl}

-- The shared pointers, and the plain ones that the calls use.
record Protocols (T : Type 0) : Type 0 where
  piprot : T
  poprot : T
  iprot : T
  oprot : T

module _ {T : Type 0} where
  -- Both constructors call one of these.
  set_protocols : T → T → Protocols T
  set_protocols iprot oprot = record {
    piprot = iprot;
    poprot = oprot;
    iprot = iprot;
    oprot = oprot;
  }

  set_protocol : T → Protocols T
  unfolding set_protocols
  set_protocol prot = set_protocols prot prot

  abbrev get_input_protocol : Protocols T → T
  get_input_protocol c = c.piprot

  abbrev get_output_protocol : Protocols T → T
  get_output_protocol c = c.poprot

  -- The calls use the objects that the client keeps alive and hands out.
  IsOwned : Protocols T → Type 0
  IsOwned c = (c.iprot ≡ get_input_protocol c) × (c.oprot ≡ get_output_protocol c)

  set_protocols-IsOwned :
      (iprot oprot prot : T) → IsOwned (set_protocols iprot oprot) × IsOwned (set_protocol prot)
  unfolding IsOwned set_protocols set_protocol
  set_protocols-IsOwned iprot oprot prot = ((refl, refl), (refl, refl))
