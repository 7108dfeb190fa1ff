-- ===== src/FieldPaths/Endpoint.antt =====
-- src/pipeline/field_paths.rs: the candidate paths of the columns for files, processes and rules.
use Prim.Native.String.{String}
use mathlib.Core.List.{List, [], ◌∷◌}

abbrev pub file_name : List String
file_name =
    "filename" ∷ "file_id" ∷ "sysmon.targetfilename" ∷ "audit.file.name"
    ∷ "office365.SourceFileName" ∷ "office365.SourceFileExtension" ∷ "TargetPath" ∷ "TargetFileName"
    ∷ "SourceFilePath" ∷ "ChildPath" ∷ "ParentPath" ∷ "win.eventdata.objectName" ∷ "defender.path"
    ∷ "defender.pathfound" ∷ "cylance_threats.file_name" ∷ "cylance_threats.file_path"
    ∷ "cylance_events.filepath" ∷ "infected_file_path" ∷ "target_file" ∷ "path" ∷ "Path"
    ∷ "sysmon.imageLoaded" ∷ "object" ∷ "url_filename" ∷ "sysmon.filecreated"
    ∷ "win.eventdata.targetFileName" ∷ "win.eventdata.targetFilename"
    ∷ "win.eventdata.originalFileName" ∷ "win.eventdata.imageLoaded" ∷ "audit.directory.name" ∷ []

abbrev pub process_name : List String
process_name =
    "sysmon.image" ∷ "sysmon.Image" ∷ "audit.exe" ∷ "audit.command" ∷ "audit.execve.a0"
    ∷ "audit.execve.a1" ∷ "audit.execve.a2" ∷ "command" ∷ "program" ∷ "process" ∷ "cmd"
    ∷ "SourceProcessName" ∷ "ChildProcessName" ∷ "defender.processname" ∷ "process.name"
    ∷ "sysmon.commandLine" ∷ "sysmon.targetImage" ∷ "sysmon.parentImage" ∷ "sysmon.sourceImage"
    ∷ "win.eventdata.image" ∷ "win.eventdata.Image" ∷ "win.eventdata.ProcessName"
    ∷ "win.eventdata.commandLine" ∷ "win.eventdata.parentCommandLine" ∷ "win.eventdata.imagePath"
    ∷ "win.eventdata.sourceImage" ∷ "win.eventdata.parentImage" ∷ "win.eventdata.targetImage"
    ∷ "parameters.program" ∷ []

abbrev pub process_id : List String
process_id =
    "sysmon.processId" ∷ "sysmon.ProcessId" ∷ "sysmon.processid" ∷ "audit.pid" ∷ "pid" ∷ "PID"
    ∷ "process.pid" ∷ "win.eventdata.processId" ∷ "win.eventdata.ProcessId"
    ∷ "win.system.execution.processId" ∷ "sysmon.parentProcessId" ∷ "sqlserver.processid" ∷ []

abbrev pub rule_name : List String
rule_name =
    "rule_name" ∷ "attack.name" ∷ "attack" ∷ "sysmon.signature" ∷ "sysmon.ruleName" ∷ "signature"
    ∷ "ThreatName" ∷ "AnalyzerRuleName" ∷ "aws.title" ∷ "aws.check-name" ∷ "ruleName"
    ∷ "qualysguard.vulnerability_title" ∷ "cylance_threats.description"
    ∷ "aws.finding.Compliance.SecurityControlId" ∷ "virus" ∷ "defender.name" ∷ []
