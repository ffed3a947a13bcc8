-- ===== src/Tests/Archives.antt =====
-- file.go and docker.go: archives and inspections at concrete inputs.
use testcontainers_go.Base.{ℕ, ◌≡◌, refl, String, ◌=s◌, none, List, [], ◌∷◌, ◌++◌}
use testcontainers_go.Errors.{ok}
use testcontainers_go.Archive.{visited, Writers, FileSystem, Paths, tar_dir}
use testcontainers_go.Inspection.{ContainerJson, container_ip, network_aliases}

-- The world lists what is written; a file is its path, and "l" is a symlink.
abbrev writers : Writers (List String)
writers = record {
  new_writers = λ w. [];
  write_header = λ h w. (none, w ++ h.name ∷ []);
  write = λ bs w. (none, w);
  close_tar = λ w. (none, w ++ "end" ∷ []);
  close_gzip = λ w. (none, w);
  buffer = λ w. (ok [], w);
}

abbrev files : FileSystem String String (List String)
files = record {
  open_file = λ p w. (ok p, w);
  close = λ f w. w;
  stat = λ f w. (ok f, w);
  is_dir = λ i. i =s "d";
  is_symlink = λ i. i =s "l";
  size_of = λ i. 0;
  header_of = λ i p. ok (record { name = p; mode = 0; size = 0 });
  copy = λ f w. (none, w ++ "content" ∷ []);
  walk = λ p w. (visited p "d" ∷ visited "x" "l" ∷ visited "f" "f" ∷ [], w);
  printf = λ t w. w;
}

abbrev paths : Paths
paths = record {
  abs = λ p. ok p;
  dir = λ p. p;
  base = λ p. p;
  last_index = λ p q. 0;
  path_from = λ n p. p;
  to_slash = λ p. p;
}

skips_symlinks :
    tar_dir files writers paths "d" 420 [] ≡ (ok [], "d" ∷ "f" ∷ "content" ∷ "end" ∷ [])
unfolding tar_dir
skips_symlinks = refl

abbrev one_network : ContainerJson ℕ
one_network = record {
  name = "c";
  state = 0;
  primary_ip = "";
  networks = ("bridge", record { ip_address = "172.17.0.2"; aliases = "db" ∷ [] }) ∷ [];
}

only_network :
    container_ip {Ctx = ℕ} {W = ℕ} (λ ctx id w. (ok one_network, w)) (λ w. w) "c" 0 0
    ≡ (ok "172.17.0.2", 0)
unfolding container_ip
only_network = refl

all_aliases :
    network_aliases {Ctx = ℕ} {W = ℕ} (λ ctx id w. (ok one_network, w)) (λ w. w) "c" 0 0
    ≡ (ok (("bridge", "db" ∷ []) ∷ []), 0)
unfolding network_aliases
all_aliases = refl
