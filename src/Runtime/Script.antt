-- ===== src/Runtime/Script.antt =====
-- The script of `cloneInitContainer` in internal/controller/agent_controller.go.
use agent_plane.Base.{String, ◌<>◌}

abbrev pub agent_home_dir_name : String
agent_home_dir_name = ".agent-home"

-- Populating from git.
abbrev pub clone_script : String
clone_script =
    "REPO=\"$AGENTPLANE_REPOSITORY\"\n" <> "DIR=\"$AGENTPLANE_WORKSPACE\"\n"
    <> "if [ -n \"${AGENTPLANE_GIT_CREDENTIAL_FILE:-}\" ] && [ -f \"$AGENTPLANE_GIT_CREDENTIAL_FILE\" ]; then\n"
    <> "  # Feed the token to git without putting it in the URL or the environment.\n"
    <> "  git config --global credential.helper \\\n"
    <> "    '!f() { echo \"username=x-access-token\"; echo \"password=$(cat '\"'\"'$AGENTPLANE_GIT_CREDENTIAL_FILE'\"'\"')\"; }; f'\n"
    <> "fi\n" <> "if [ -d \"$DIR/.git\" ]; then\n"
    <> "  echo \"workspace already cloned; fetching\"\n"
    <> "  git -C \"$DIR\" remote set-url origin \"$REPO\"\n"
    <> "  git -C \"$DIR\" fetch --prune origin\n"
    <> "  if [ -n \"${AGENTPLANE_BRANCH:-}\" ]; then\n"
    <> "    git -C \"$DIR\" checkout \"$AGENTPLANE_BRANCH\"\n"
    <> "    git -C \"$DIR\" reset --hard \"origin/$AGENTPLANE_BRANCH\"\n" <> "  fi\n" <> "else\n"
    <> "  echo \"cloning $REPO\"\n" <> "  if [ -n \"${AGENTPLANE_BRANCH:-}\" ]; then\n"
    <> "    git clone --branch \"$AGENTPLANE_BRANCH\" \"$REPO\" \"$DIR\"\n" <> "  else\n"
    <> "    git clone \"$REPO\" \"$DIR\"\n" <> "  fi\n" <> "fi\n"

-- Where there is no repository.
abbrev pub empty_script : String
empty_script =
    "DIR=\"$AGENTPLANE_WORKSPACE\"\n"
    <> "echo \"no repository declared; preparing an empty working directory\"\n"

abbrev pub prepare_script : String → String
prepare_script clone =
    "set -eu\n" <> clone
    <> "# The runtime's HOME lives on this volume (see agentHomeDirName): create it here,\n"
    <> "# while we are still root, and tell git to ignore it. Without the exclude a\n"
    <> "# coding agent would see its own state directory as untracked files in the\n"
    <> "# repository it is working on — and could commit them.\n" <> "#\n"
    <> "# chmod is not optional. This step runs as root, so the directory is created\n"
    <> "# 0755 root-owned, and the runtime container runs as a non-root uid whose only\n"
    <> "# shared credential is the fsGroup — it cannot write into it and dies on\n"
    <> "# startup. The failure only appears on a *fresh* volume, which is why it is easy\n"
    <> "# to miss: an existing workspace already has a usable directory.\n" <> "#\n"
    <> "# The /** suffix matches the directory's *contents*, which is what survives a\n"
    <> "# repository whose own .gitignore re-includes directories (the \"/*\" then \"!/*/\"\n"
    <> "# idiom): such a negation beats a plain directory pattern in info/exclude, and\n"
    <> "# the agent's logs reappear as untracked files no matter what is written here.\n"
    <> "mkdir -p \"$DIR/" <> agent_home_dir_name <> "\"\n" <> "chmod 2775 \"$DIR/"
    <> agent_home_dir_name <> "\"\n" <> "if [ -d \"$DIR/.git\" ]; then\n"
    <> "  mkdir -p \"$DIR/.git/info\"\n"
    <> "  # All of the runtime's own directories, not just HOME: this step runs as root\n"
    <> "  # and the runtime may not be able to write .git/info itself.\n" <> "  for p in '/"
    <> agent_home_dir_name <> "/**' '/.opencode/**' '/node_modules/**'; do\n"
    <> "    grep -qxF \"$p\" \"$DIR/.git/info/exclude\" 2>/dev/null \\\n"
    <> "      || echo \"$p\" >> \"$DIR/.git/info/exclude\"\n" <> "  done\n" <> "fi"
