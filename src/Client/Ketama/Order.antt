-- ===== src/Client/Ketama/Order.antt =====
-- The ring of src/client/ketama.rs for lists of the same servers in different orders.
use native.Mathlib.Nat.{mod-lt}
use gearman_rs.Base.{
  ℕ, ◌<◌, ◌%◌, ◌≡◌, refl, sym, ap, subst, ◌∙◌, true, Option, some, List, [], map, length,
  length-map, get_elem?, Bytes, arith,
}
use gearman_rs.Client.Ketama.{Point, server_points, md5_u32, start_of, select, new_ring}
use gearman_rs.Client.Ketama.Ascending.{Has, ascending, ascending_unique, Has-map, Has-map_source}
use gearman_rs.Client.Ketama.Select.{primary, select-primary}
use gearman_rs.Client.Ketama.Named.{
  Named, named_point, below, name_of, partition_point-named, ascending-named, address_at,
  named_points, name_servers, Has-named_source, Has-named,
}

module _ (digest : Bytes → Bytes) where
  -- What the code relies on of the sort: the same points.
  abbrev pub KeepsPoints : (List Point → List Point) → Type 0
  KeepsPoints sort =
      (p : Point) (ps : List Point) → (Has p ps → Has p (sort ps)) × (Has p (sort ps) → Has p ps)

  module _ (sort : List Point → List Point) (keeps : KeepsPoints sort) where
    ring_names : List Bytes → List Named
    ring_names servers = map (named_point servers) (new_ring digest sort servers).points

    ring_names-from :
        (n : Named) (servers : List Bytes)
        → Has n (ring_names servers)
        → Has n (named_points digest servers)
    unfolding ring_names new_ring
    ring_names-from n servers h =
        let (p, k, e) =
          Has-map_source (named_point servers) n (sort (server_points digest 0 servers)) h in
        subst (Has n) (name_servers digest [] servers) (
          subst (λ m. Has m (map (named_point servers) (server_points digest 0 servers))) e
            (Has-map (named_point servers) p (server_points digest 0 servers)
              ((keeps p (server_points digest 0 servers)).1 k)))

    ring_names-to :
        (n : Named) (servers : List Bytes)
        → Has n (named_points digest servers)
        → Has n (ring_names servers)
    unfolding ring_names new_ring
    ring_names-to n servers h =
        let (p, k, e) =
          Has-map_source (named_point servers) n (server_points digest 0 servers)
            (subst (Has n) (sym (name_servers digest [] servers)) h) in
        subst (λ m. Has m (map (named_point servers) (sort (server_points digest 0 servers)))) e
          (Has-map (named_point servers) p (sort (server_points digest 0 servers))
            ((keeps p (server_points digest 0 servers)).0 k))

    ring_names-within :
        (xs ys : List Bytes)
        → ((addr : Bytes) → Has addr xs → Has addr ys)
        → (n : Named) → Has n (ring_names xs)
        → Has n (ring_names ys)
    ring_names-within xs ys f n h =
        let (addr, m, k) = Has-named_source digest n xs (ring_names-from n xs h) in
        ring_names-to n ys (Has-named digest n addr ys (f addr m) k)

    ring_names_unique :
        (xs ys : List Bytes)
        → ((addr : Bytes) → Has addr xs → Has addr ys)
        → ((addr : Bytes) → Has addr ys → Has addr xs)
        → ascending (new_ring digest sort xs).points ≡ true
        → ascending (new_ring digest sort ys).points ≡ true
        → ring_names xs ≡ ring_names ys
    unfolding ring_names
    ring_names_unique xs ys f g up vp =
        ascending_unique (ring_names xs) (ring_names ys) (ascending-named xs _ up)
          (ascending-named ys _ vp) (ring_names-within xs ys f) (ring_names-within ys xs g)

    -- The address of the owner, from the names alone.
    named_owner : Bytes → List Named → Option Bytes
    named_owner unique ns = name_of (get_elem? ns (below (md5_u32 digest unique) ns % length ns))

    owner_named :
        (unique : Bytes) (servers : List Bytes)
        → 0 < length (new_ring digest sort servers).points
        → get_elem? servers (primary digest (new_ring digest sort servers) unique)
          ≡ named_owner unique (ring_names servers)
    unfolding start_of ring_names named_owner
    owner_named unique servers b =
        address_at servers (new_ring digest sort servers).points
          (start_of digest (new_ring digest sort servers) unique) (mod-lt _ b)
        ∙ rw
            (
              partition_point-named servers (md5_u32 digest unique)
                  (new_ring digest sort servers).points,
              sym (
                  length-map {B = Named} (named_point servers)
                    (new_ring digest sort servers).points),
            )
            refl

    length-ring_names :
        (servers : List Bytes)
        → length (ring_names servers) ≡ length (new_ring digest sort servers).points
    unfolding ring_names
    length-ring_names servers =
        length-map {B = Named} (named_point servers) (new_ring digest sort servers).points

    -- If the sort keeps the points, two lists have the same servers, and the points of the
    -- ring of each list ascend strictly, the first ring having a point, then for every unique
    -- id `select` on the ring of each list, with all servers healthy, picks a server, and the
    -- two have the same address.
    pub new_ring-same_owner :
        (xs ys : List Bytes) (unique : Bytes)
        → ((addr : Bytes) → Has addr xs → Has addr ys)
        → ((addr : Bytes) → Has addr ys → Has addr xs)
        → ascending (new_ring digest sort xs).points ≡ true
        → ascending (new_ring digest sort ys).points ≡ true
        → 0 < length (new_ring digest sort xs).points
        → (i : ℕ) × (j : ℕ) × (select digest (new_ring digest sort xs) unique (λ s. true) ≡ some i)
          × (select digest (new_ring digest sort ys) unique (λ s. true) ≡ some j)
          × (get_elem? xs i ≡ get_elem? ys j)
    new_ring-same_owner xs ys unique f g up vp b =
        let same = ring_names_unique xs ys f g up vp in
        let c : 0 < length (new_ring digest sort ys).points =
          omega
            (arith, b, length-ring_names xs, length-ring_names ys, ap (length {A = Named}) same) in
        (
          primary digest (new_ring digest sort xs) unique,
          primary digest (new_ring digest sort ys) unique,
          select-primary digest (new_ring digest sort xs) unique (λ s. true) b refl,
          select-primary digest (new_ring digest sort ys) unique (λ s. true) c refl,
          owner_named unique xs b ∙ ap (named_owner unique) same ∙ sym (owner_named unique ys c),
        )
