-- ===== src/Route/Tests.antt =====
-- The routing table at concrete addresses.
use network_lab.Route.Match.{Longest, longest_prefix_match_lem}
use network_lab.LinkedList.{ListHead, Store}
use network_lab.LinkedList.Chain.{Missing}
use network_lab.LinkedList.Refine.{IsLinked}
use network_lab.Route.Kernel.{RtMsg, rta_dst, rta_gateway, rta_oif, rta_other, parse_routing_info}
use network_lab.Route.Messages.{IsProper, orelse, entries_of, parse_routing_info_lem}
use network_lab.Route.Entries.{clear_rtable, clear_rtable_lem}
use network_lab.Base.{
  ℕ, update, arith, List, Returns, ◌⊎◌, false, Every, ◌≡◌, refl, length, [], ◌∷◌, some, none,
}
use network_lab.Packet.{Iface, if_name_to_iface}
use network_lab.Route.{
  RtEntry, matches, is_better, select_longest, longest_prefix_match, get_next_hop,
}

abbrev eth0 : Iface
eth0 = record { index = 1; mac = []; ip = 0x0a000001; mask = 0xffffff00 }

abbrev lan : RtEntry
lan = record { dest = 0x0a000000; mask = 0xffffff00; gw = 0; iface = eth0 }

abbrev default_route : RtEntry
default_route = record { dest = 0; mask = 0; gw = 0x0a000009; iface = eth0 }

prefers_lan : longest_prefix_match (default_route ∷ lan ∷ []) 0x0a000003 ≡ some lan
unfolding longest_prefix_match select_longest matches is_better
prefers_lan = refl

falls_back : longest_prefix_match (default_route ∷ lan ∷ []) 0x0b000003 ≡ some default_route
unfolding longest_prefix_match select_longest matches is_better
falls_back = refl

no_route : longest_prefix_match (lan ∷ []) 0x0b000003 ≡ none
unfolding longest_prefix_match select_longest matches is_better
no_route = refl

hop : get_next_hop default_route 0x0b000003 ≡ 0x0a000009
unfolding get_next_hop
hop = refl

longest_prefix_match_lem_example :
    ((longest_prefix_match (default_route ∷ lan ∷ []) 0x0a000003 ≡ none)
      × Every (λ f. matches f 0x0a000003 ≡ false) (default_route ∷ lan ∷ []))
    ⊎ ((e : RtEntry) × (longest_prefix_match (default_route ∷ lan ∷ []) 0x0a000003 ≡ some e)
        × Longest 0x0a000003 (default_route ∷ lan ∷ []) e)
longest_prefix_match_lem_example = longest_prefix_match_lem (default_route ∷ lan ∷ []) 0x0a000003

-- The table at 10, with the entries 1 and 2.
abbrev node : ℕ → ℕ → ListHead
node next prev = record { next = next; prev = prev }

abbrev two_entries : Store
two_entries =
    update (update (update (λ a. none) 10 (some (node 1 2))) 1 (some (node 2 10))) 2
      (some (node 10 1))

clear_rtable_lem_example : Returns (clear_rtable 3 10 two_entries) (λ h'.
    IsLinked h' 10 []
    × Every (λ entry. h' entry ≡ none) (1 ∷ 2 ∷ [])
    × ((c : ℕ) → Missing c (10 ∷ 1 ∷ 2 ∷ []) → two_entries c ≡ none → h' c ≡ none))
clear_rtable_lem_example =
    clear_rtable_lem two_entries 10 (1 ∷ 2 ∷ [])
      (record { nexts = (refl, (refl, refl)); prevs = (refl, (refl, refl)); apart = ground arith })

abbrev named : List (List ℕ × Iface)
named = (97 ∷ [], eth0) ∷ []

-- A default route by the interface "a", one of another table, and the route of a net by "b", which is
-- no interface of the router.
abbrev messages : List RtMsg
messages =
    record {
      rtm_table = 254;
      rtm_dst_len = 0;
      attrs = rta_other ∷ rta_gateway 0x0a000009 ∷ rta_oif 97 ∷ [];
    }
    ∷ record { rtm_table = 255; rtm_dst_len = 32; attrs = rta_dst 0x0a0000ff ∷ rta_oif 97 ∷ [] }
    ∷ record { rtm_table = 254; rtm_dst_len = 24; attrs = rta_oif 98 ∷ rta_dst 0x0a000000 ∷ [] }
    ∷ []

messages-IsProper : Every IsProper messages
unfolding orelse
messages-IsProper = (
  λ _. (omega arith, (λ _. refl), (97, refl)),
  (
    λ main. absurd (omega (arith, main)),
    (λ _. (omega arith, (λ e. absurd (omega (arith, e))), (98, refl)), tt),
  ),
)

parse_routing_info_lem_example :
    parse_routing_info (λ i. some (i ∷ [])) named messages
    ≡ some
        (entries_of (λ i. i ∷ []) named messages, length (entries_of (λ i. i ∷ []) named messages))
parse_routing_info_lem_example =
    parse_routing_info_lem (λ i. i ∷ []) named messages messages-IsProper

only_default : entries_of (λ i. i ∷ []) named messages ≡ default_route ∷ []
unfolding if_name_to_iface orelse
only_default = refl
