-- ===== src/Pipeline/Prompt.antt =====
-- internal/pipeline/prompt.go: which files a document's prompt shows, and the prompt.
pub mod Text
pub mod Imports
mod Tests
use ping_goat.Common.{
  Bool, GoString, List, [], bytes, contains, filter, has_prefix, has_suffix, str_eq, ◌++◌, ◌||◌,
  ◌∷◌,
}
use ping_goat.Gemini.{DocType, readme, quick_start, diagram, GenRequest}
use ping_goat.Pipeline.Batcher.{ParsedFile}
use ping_goat.Pipeline.Prompt.Text.{base, to_lower}
use ping_goat.Pipeline.Prompt.Imports.{extract_imports}

matches_readme : GoString → Bool
unfolding str_eq has_prefix to_lower
matches_readme name =
    str_eq name (bytes "go.mod")
    || (str_eq name (bytes "package.json")
        || (str_eq name (bytes "main.go")
            || (has_prefix (to_lower name) (bytes "readme")
                || (str_eq name (bytes "Dockerfile") || str_eq name (bytes "Makefile")))))

unfoldable pub matches : ParsedFile → DocType → Bool
unfolding matches_readme contains has_suffix base
matches p readme = matches_readme (base p.path)
matches p quick_start =
    (contains p.path (bytes "handler") || contains p.path (bytes "route"))
    || (contains p.path (bytes "model") || contains p.path (bytes "domain"))
matches p diagram = has_suffix p.path (bytes ".go") || has_suffix p.path (bytes ".ts")

unfoldable pub select_files : List ParsedFile → DocType → List ParsedFile
select_files files doc = filter (λ file. matches file doc) files

-- The instructions in front of the files.
pub instructions : DocType → GoString
instructions readme =
    bytes "You are a technical writer. Generate a professional README.md.\n"
    ++ bytes "Include: title, features, tech stack, installation, project structure.\n"
    ++ bytes "Output only Markdown.\n"
instructions quick_start =
    bytes "You are a developer advocate. Generate a quickstart.md document.\n"
    ++ bytes
        "Include: prerequisites, steps to run the project or app, working code example, common first task, troubleshooting tips\n"
    ++ bytes "Output only Markdown.\n"
instructions diagram =
    bytes "You are a software architect. Generate a architecture diagram.\n"
    ++ bytes
        "Include: architecture diagram written using mermaid js on markdown file that shows main component/modules and responsibilities, data flow between components, external dependencies, entry point\n"
    ++ bytes "Output only Markdown. use graph TD or flowchart TD of mermaid\n"

-- What is shown of a file: all of it, or its imports for the diagram.
pub body_of : DocType → ParsedFile → GoString
body_of diagram file = extract_imports file.content
body_of readme file = file.content
body_of quick_start file = file.content

section_of : DocType → ParsedFile → GoString
section_of doc file =
    ((bytes "### " ++ file.path) ++ 0x0a ∷ []) ++ (body_of doc file ++ 0x0a ∷ 0x0a ∷ [])

write_files : DocType → GoString → List ParsedFile → GoString
write_files doc b [] = b
write_files doc b (file ∷ files) = write_files doc (b ++ section_of doc file) files

unfoldable pub build_prompt : List ParsedFile → DocType → GenRequest
unfolding write_files section_of
build_prompt files doc = record {
  doc_type = doc;
  prompt = write_files doc (instructions doc) (select_files files doc);
}
